-- ===== src/Dispatcher/Service.antt =====
-- include/Dispatcher.h with include/Belt.h: the dispatcher empties a belt onto the truck at the dock.
use so_magazyn_firmy_spedycy.Base.{
  ◌+◌, ◌-◌, ◌<◌, ◌≡◌, ◌≢◌, refl, sym, ◌∙◌, ap, arith, true, false, List, [], ◌∷◌, ◌++◌, Double,
  length, length-set, replicate, subst, ◌==◌, if◌then◌else◌,
}
use so_magazyn_firmy_spedycy.Shared.{Package, TruckState, zero_package}
use so_magazyn_firmy_spedycy.Manager.{World, returned, M, pure, ◌>>=◌, IsDockQuiet, bind-returned}
use so_magazyn_firmy_spedycy.Belt.{pop}
use so_magazyn_firmy_spedycy.Belt.Class.{take_off, next_package}
use so_magazyn_firmy_spedycy.Belt.Slots.{length-slots, slots-pop}
use so_magazyn_firmy_spedycy.Belt.Refine.{IsValid, view}
use so_magazyn_firmy_spedycy.Dispatcher.{load_loop, process_next_package, run}
use so_magazyn_firmy_spedycy.Dispatcher.Class.{fits}
use so_magazyn_firmy_spedycy.Dispatcher.Verdict.{with_package, HasRoom, HasRoom-fits}
use so_magazyn_firmy_spedycy.Dispatcher.Loading.{dismissal, loaded_state, try_load_lem}

module _ {W : Type 0} ⦃d : Double W⦄ where
  -- the truck after some packages, and that each of them fits when its turn comes
  abbrev pub load_each : List (Package W) → TruckState W → TruckState W
  load_each [] truck = truck
  load_each (p ∷ ps) truck = load_each ps (with_package p truck)

  abbrev pub EachFits : List (Package W) → TruckState W → Type 0
  EachFits [] truck = Unit {0}
  EachFits (p ∷ ps) truck = (p.id ≢ 0) × HasRoom p truck × EachFits ps (with_package p truck)

  -- The system runs, with a truck at the dock, and nobody is in a critical section.
  pub record IsOpen (w : World W) : Type 0 where
    pub valid : IsValid w
    pub dock : IsDockQuiet w
    pub up : w.shm.running ≡ true
    pub here : w.shm.dock_truck.is_present ≡ true

  abbrev pub after_pop : World W → World W
  after_pop w = record w {
    shm = take_off w.shm;
    sem = record w.sem { full_slots = w.sem.full_slots - 1; empty_slots = w.sem.empty_slots + 1 };
  }

  pub pop-item :
      (w : World W)
      → IsValid w
      → 0 < w.shm.current_items_count
      → pop w ≡ returned (next_package w.shm, after_pop w)
  unfolding pop
  pop-item w v pos = ground arith

  after_pop-IsValid :
      (w : World W) → IsValid w → 0 < w.shm.current_items_count → IsValid (after_pop w)
  unfolding take_off
  after_pop-IsValid w v pos = ground (arith, length-set w.shm.belt w.shm.head zero_package)

  abbrev pub after_load : Package W → World W → World W
  after_load p w = record w { shm = loaded_state p w.shm; queue = w.queue ++ dismissal p w.shm }

  -- `processNextPackage` behind its `pop`
  abbrev handle : Package W → M W (Unit {0})
  handle p = if p.id == 0 then pure tt else (load_loop [] p >>= λ loaded. pure tt)

  handle-fitting :
      (p : Package W) (w : World W)
      → IsDockQuiet w
      → p.id ≢ 0
      → w.shm.running ≡ true
      → w.shm.dock_truck.is_present ≡ true
      → fits p w.shm.dock_truck ≡ true
      → handle p w ≡ returned (tt, after_load p w)
  unfolding load_loop
  handle-fitting p w q numbered up here room = ground (arith, try_load_lem p w q)

  after_load-IsOpen :
      (p : Package W) (w : World W)
      → IsValid w
      → IsDockQuiet w
      → w.shm.running ≡ true
      → w.shm.dock_truck.is_present ≡ true
      → fits p w.shm.dock_truck ≡ true
      → IsOpen (after_load p w)
  after_load-IsOpen p w v q up here room = record {
    valid = ground arith;
    dock = record { dock_free = q.dock_free; no_faults = q.no_faults };
    up = ground arith;
    here = ground arith;
  }

  pub after_load-items :
      (p : Package W) (w : World W) → (view (after_load p w)).items ≡ (view w).items
  after_load-items p w = ground arith

  after_load-truck :
      (p : Package W) (w : World W)
      → w.shm.dock_truck.is_present ≡ true
      → fits p w.shm.dock_truck ≡ true
      → (after_load p w).shm.dock_truck ≡ with_package p w.shm.dock_truck
  after_load-truck p w here room = ground arith

  -- What one turn does.
  record Served (p : Package W) (ps : List (Package W)) (w : World W) : Type 0 where
    last : World W
    ran : process_next_package [] w ≡ returned (tt, last)
    open_after : IsOpen last
    left : (view last).items ≡ ps
    truck : last.shm.dock_truck ≡ with_package p w.shm.dock_truck

  serve_one :
      (p : Package W) (ps : List (Package W)) (w : World W)
      → IsOpen w
      → (view w).items ≡ p ∷ ps
      → p.id ≢ 0
      → fits p w.shm.dock_truck ≡ true
      → Served p ps w
  unfolding process_next_package take_off
  serve_one p ps w o items numbered room = record {
    last = after_load p popped;
    ran =
        bind-returned pop handle w (pop-item w o.valid pos)
        ∙ (ap (λ q. handle q popped) next
            ∙ handle-fitting p popped quiet numbered o.up o.here room);
    open_after = after_load-IsOpen p popped v quiet o.up o.here room;
    left = after_load-items p popped ∙ sym rest;
    truck = after_load-truck p popped o.here room;
  }
    where
      popped : World W
      popped = after_pop w

      quiet : IsDockQuiet popped
      quiet = record { dock_free = o.dock.dock_free; no_faults = o.dock.no_faults }

      pos : 0 < w.shm.current_items_count
      pos =
          omega
            (arith, ap length items, length-slots w.shm.belt w.shm.head w.shm.current_items_count)

      split : p ∷ ps ≡ next_package w.shm ∷ (view popped).items
      split =
          sym items
          ∙ slots-pop w.shm.belt zero_package w.shm.head w.shm.current_items_count o.valid.head_in
              pos o.valid.count_in

      next : next_package w.shm ≡ p
      next = cc split

      v : IsValid popped
      v = after_pop-IsValid w o.valid pos

      rest : ps ≡ (view popped).items
      rest = cc split

  -- a turn that nobody disturbs, and one before which the system is stopped
  abbrev pub undisturbed : (World W → World W) × List (World W → World W)
  undisturbed = (λ w. w, [])

  abbrev pub stopped : (World W → World W) × List (World W → World W)
  stopped = (λ w. record w { shm = record w.shm { running = false } }, [])

  -- On a running system with a truck at the dock, if the packages on the belt are numbered and each
  -- fits when its turn comes: undisturbed, the dispatcher takes them all off the belt and puts them on the
  -- truck in the order of the belt, and when the system is stopped then, its `run` returns.
  pub run-empties :
      (ps : List (Package W)) (w : World W)
      → IsOpen w
      → (view w).items ≡ ps
      → EachFits ps w.shm.dock_truck
      → (v : World W) × (run (replicate (length ps) undisturbed ++ stopped ∷ []) w
          ≡ returned (tt, v))
        × ((view v).items ≡ [])
        × (v.shm.dock_truck ≡ load_each ps w.shm.dock_truck)
  unfolding run
  run-empties [] w o items fit =
      (record w { shm = record w.shm { running = false } }, refl, items, refl)
  run-empties (p ∷ ps) w o items (numbered, room, fit) =
      let one = serve_one p ps w o items numbered (HasRoom-fits p w.shm.dock_truck room) in
      let (v, ran, none_left, truck) =
        run-empties ps one.last one.open_after one.left (subst (EachFits ps) (sym one.truck) fit) in
      (v, ground (arith, one.ran, ran, o.up), none_left, truck ∙ ap (load_each ps) one.truck)
