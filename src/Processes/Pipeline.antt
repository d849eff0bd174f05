-- ===== src/Processes/Pipeline.antt =====
-- include/Worker.h, include/Belt.h and include/Dispatcher.h together: from a worker to the truck.
use so_magazyn_firmy_spedycy.Base.{
  ℕ, ◌+◌, ◌≤◌, ◌<◌, ◌≡◌, sym, subst, ◌∙◌, ap, true, List, [], ◌∷◌, ◌++◌, map, Double, length,
  replicate,
}
use so_magazyn_firmy_spedycy.Manager.{World, returned, ◌>>◌, bind-returned, IsDockQuiet}
use so_magazyn_firmy_spedycy.Belt.Refine.{view}
use so_magazyn_firmy_spedycy.Worker.{Turn, work}
use so_magazyn_firmy_spedycy.Worker.Shift.{undisturbed, made, me, Ready, work_lem}
use so_magazyn_firmy_spedycy.Dispatcher
use so_magazyn_firmy_spedycy.Dispatcher.Service.{load_each, EachFits, IsOpen, stopped, run-empties}

module _ {W : Type 0} ⦃d : Double W⦄ where
  -- A worker's shift and then the dispatcher, neither disturbed, on an empty belt with a truck at the dock: if
  -- the packages of the shift, at most ten, fit the truck one after the other and are numbered, both
  -- return, the belt is empty again and the weights, the volumes and the number of exactly these packages
  -- have been added to the truck's.
  pub work-run :
      (pid k : ℕ) (turns : List (Turn W)) (w : World W)
      → Ready k w
      → IsDockQuiet w
      → w.shm.dock_truck.is_present ≡ true
      → w.shm.current_workers_count < 100
      → (view w).items ≡ []
      → length turns + w.shm.current_items_count ≤ 10
      → EachFits (made pid turns w.shm.total_packages_created) w.shm.dock_truck
      → (v : World W) × ((work pid (me k) (map undisturbed turns)
              >> Dispatcher.run (
                  replicate
                    (length (made pid turns w.shm.total_packages_created))
                    Dispatcher.Service.undisturbed
                  ++ stopped ∷ []))
            w
          ≡ returned (tt, v))
        × ((view v).items ≡ [])
        × (v.shm.dock_truck
            ≡ load_each (made pid turns w.shm.total_packages_created) w.shm.dock_truck)
  work-run pid k turns w r q here few empty room fit =
      let packages = made pid turns w.shm.total_packages_created in
      let (u, worked, valid, same, items) = work_lem pid k turns w r few room in
      let (v, ran, none_left, truck) =
        run-empties packages u
          (record {
            valid = valid;
            dock = record { dock_free = same.dock ∙ q.dock_free; no_faults = valid.quiet };
            up = same.up ∙ r.running;
            here = ap (λ t. t.is_present) same.truck ∙ here;
          })
          (items ∙ ap (λ l. l ++ packages) empty)
          (subst (EachFits packages) (sym same.truck) fit) in
      (
        v,
        bind-returned (work pid (me k) (map undisturbed turns))
              (λ _.
                Dispatcher.run
                  (replicate (length packages) Dispatcher.Service.undisturbed ++ stopped ∷ []))
              w worked
            ∙ ran,
        none_left,
        truck ∙ ap (load_each packages) same.truck,
      )
