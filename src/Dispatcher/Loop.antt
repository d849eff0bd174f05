-- ===== src/Dispatcher/Loop.antt =====
-- include/Dispatcher.h: the loop of `processNextPackage`.
use so_magazyn_firmy_spedycy.Base.{
  ℕ, ◌≡◌, ◌⊎◌, inl, inr, Bool, true, false, List, [], ◌∷◌, ◌++◌, arith, Double, decimal, ◌<=◌,
  IsOrdered,
}
use so_magazyn_firmy_spedycy.Shared.{Package, TruckState, vol_c}
use so_magazyn_firmy_spedycy.Manager.{World, returned, IsDockQuiet}
use so_magazyn_firmy_spedycy.Truck.Class.{randomize_truck_specs}
use so_magazyn_firmy_spedycy.Dispatcher.{load_loop}
use so_magazyn_firmy_spedycy.Dispatcher.Class.{fits}
use so_magazyn_firmy_spedycy.Dispatcher.Loading.{accepts, dismissal, loaded_state, try_load_lem}

module _ {W : Type 0} ⦃d : Double W⦄ where
  -- the world after a turn that could not load the package
  abbrev pub turned_away : Package W → World W → World W
  turned_away pkg w = record w { queue = w.queue ++ dismissal pkg w.shm }

  -- the world after any turn
  abbrev after_turn : Package W → World W → World W
  after_turn pkg w = record w {
    shm = loaded_state pkg w.shm;
    queue = w.queue ++ dismissal pkg w.shm;
  }

  -- At every turn the system runs with the dock free and no failing call, until one that finds a truck
  -- with room.
  abbrev pub Comes : Package W → List (World W → World W) → World W → Type 0
  Comes pkg [] w = IsDockQuiet w × (w.shm.running ≡ true) × (accepts pkg w.shm ≡ true)
  Comes pkg (other ∷ others) w =
      IsDockQuiet w
      × (w.shm.running ≡ true)
      × ((accepts pkg w.shm ≡ true)
          ⊎ ((accepts pkg w.shm ≡ false) × Comes pkg others (other (turned_away pkg w))))

  -- Whatever the other processes do between two turns: if the system keeps running and in the end a
  -- truck with room is at the dock, the loop ends, with the package loaded.
  pub load_loop_loads :
      (pkg : Package W) (others : List (World W → World W)) (w : World W)
      → Comes pkg others w
      → (v : World W) × (load_loop others pkg w ≡ returned (true, v))
  unfolding load_loop
  load_loop_loads pkg [] w (q, up, room) = (after_turn pkg w, ground (arith, try_load_lem pkg w q))
  load_loop_loads pkg (other ∷ others) w (q, up, inl room) =
      (after_turn pkg w, ground (arith, try_load_lem pkg w q))
  load_loop_loads pkg (other ∷ others) w (q, up, inr (full, later)) =
      let (v, e) = load_loop_loads pkg others (other (turned_away pkg w)) later in
      (v, ground (arith, try_load_lem pkg w q, e))

  -- a result `false` means that the system has stopped
  abbrev pub OnlyStopped : Bool → World W → Type 0
  OnlyStopped loaded v = loaded ≡ false → v.shm.running ≡ false

  -- With comparisons as `IsOrdered` says, a truck that has just docked with at least 200 kg and 1 m³ takes any package of at most 25 kg and
  -- the largest volume.
  pub fresh_truck_fits :
      (pkg : Package W) (truck : TruckState W) (pid : ℕ) (a b : W)
      → IsOrdered W
      → (pkg.weight <= decimal 25 0) ≡ true
      → (pkg.volume <= vol_c) ≡ true
      → (decimal 200 0 <= a) ≡ true
      → (decimal 1000000 6 <= b) ≡ true
      → fits pkg (randomize_truck_specs pid a b truck) ≡ true
  unfolding randomize_truck_specs
  fresh_truck_fits pkg truck pid a b o hw hv ha hb = ground (
    arith,
    o.zero-add pkg.weight a,
    o.zero-add pkg.volume b,
    o.le_trans pkg.weight (decimal 25 0) (decimal 200 0) hw (o.literal_le 25 200 0 (omega arith)),
    o.le_trans pkg.weight (decimal 200 0) a,
    o.le_trans pkg.volume vol_c (decimal 1000000 6) hv (o.literal_le 99712 1000000 6 (omega arith)),
    o.le_trans pkg.volume (decimal 1000000 6) b,
  )
