-- ===== src/Examples/Runs.antt =====
-- Whole runs of several processes.
use so_magazyn_firmy_spedycy.Base.{
  ℕ, Bool, ◌≡◌, refl, arith, true, false, some, List, [], ◌∷◌, ◌++◌, codes, strncpy, bytes_eq,
  string_of, micro_double,
}
use so_magazyn_firmy_spedycy.Shared.{TruckState, init_state, operator, sys_admin, has_flag}
use so_magazyn_firmy_spedycy.Manager.{
  World, returned, ◌>>=◌, ◌>>◌, init_world, IsDockQuiet, eidrm, einval, eintr,
  receive_signal_blocking, first_for,
}
use so_magazyn_firmy_spedycy.Belt.Refine.{IsValid, view}
use so_magazyn_firmy_spedycy.Belt.Class.{place}
use so_magazyn_firmy_spedycy.Session.{new_session_manager, session_of, logout}
use so_magazyn_firmy_spedycy.Truck.{await_signal, step}
use so_magazyn_firmy_spedycy.Truck.Class.{ended}
use so_magazyn_firmy_spedycy.Dispatcher
use so_magazyn_firmy_spedycy.Dispatcher.Service.{
  run-empties, load_each, IsOpen, undisturbed, stopped,
}
use so_magazyn_firmy_spedycy.Express.Class.{Draw}
use so_magazyn_firmy_spedycy.Terminal.{
  vip_request_sent, handle_vip, handle_stop, find_process_by_role,
}
use so_magazyn_firmy_spedycy.Worker.{Turn, work, new_package}
use so_magazyn_firmy_spedycy.Worker.Shift
use so_magazyn_firmy_spedycy.Worker.Shift.{made, me, Ready}
use so_magazyn_firmy_spedycy.Processes.Mains.{on_signal}
use so_magazyn_firmy_spedycy.Processes.Shutdown.{stop-ends_truck, removal-ends_dispatcher}
use so_magazyn_firmy_spedycy.Express.Boarding.{Boards, left_over}
use so_magazyn_firmy_spedycy.Processes.Orders.{vip-delivers, orders}
use so_magazyn_firmy_spedycy.Processes.Handlers.{sigterm, signalled_work, signalled_work_lem}
use so_magazyn_firmy_spedycy.Processes.Pipeline.{work-run}
use so_magazyn_firmy_spedycy.Examples.Data.{
  start, small_package, empty_truck, at_dock, worker_session,
}

-- an empty belt, truck 7 at the dock, a worker at entry 0 and the P4 worker, process 9, at entry 1
abbrev open_day : World ℕ
open_day = record start {
  shm = record init_state {
    dock_truck = empty_truck;
    users =
        worker_session
        ∷ session_of (codes "System-Express") operator 0 1 9
        ∷ session_of (codes "Truck_1") operator 0 1 7
        ∷ [];
  };
}

open_day-IsValid : IsValid open_day
unfolding init_world
open_day-IsValid = ground arith

open_day-IsDockQuiet : IsDockQuiet open_day
unfolding init_world
open_day-IsDockQuiet = record { dock_free = refl; no_faults = refl }

abbrev one_item : World ℕ
one_item = record open_day {
  shm = place small_package open_day.shm;
  sem = record open_day.sem { empty_slots = 9; full_slots = 1 };
}

one_item-IsOpen : IsOpen one_item
unfolding init_world place
one_item-IsOpen = record {
  valid = ground arith;
  dock = record { dock_free = refl; no_faults = refl };
  up = refl;
  here = refl;
}

-- a package of type A and 5 kg
abbrev light_turn : Turn ℕ
light_turn = record { type_roll = 0; weight = 5000000; garbage = small_package; others = λ w. w }

open_day-Ready : Ready 0 open_day
unfolding init_world
open_day-Ready = record {
  valid = open_day-IsValid;
  running = refl;
  listed = omega arith;
  allowed = omega arith;
  small = omega arith;
}

run-empties_example :
    (v : World ℕ) × (Dispatcher.run (undisturbed ∷ stopped ∷ []) one_item ≡ returned (tt, v))
    × ((view v).items ≡ [])
    × (v.shm.dock_truck ≡ load_each (record small_package { id = 1 } ∷ []) empty_truck)
unfolding place init_state
run-empties_example =
    run-empties (record small_package { id = 1 } ∷ []) one_item one_item-IsOpen refl
      ((λ e. absurd (omega (arith, e))), (refl, refl), tt)

work-run_example :
    (v : World ℕ) × ((work 40 (me 0) (Shift.undisturbed light_turn ∷ [])
          >> Dispatcher.run (undisturbed ∷ stopped ∷ []))
        open_day
      ≡ returned (tt, v))
    × ((view v).items ≡ [])
    × (v.shm.dock_truck ≡ load_each (made 40 (light_turn ∷ []) 0) empty_truck)
unfolding init_world new_package
work-run_example =
    work-run 40 0 (light_turn ∷ []) open_day open_day-Ready open_day-IsDockQuiet refl (omega arith)
      refl (omega arith) ((λ e. absurd (omega (arith, e))), (refl, refl), tt)

stop-ends_truck_example :
    (v : World ℕ) × ((handle_stop sys_admin true >>= λ _.
    await_signal 7 >>= λ p. step 7 200000000 2000000 p)
        open_day
      ≡ returned (ended, v))
    × (v.shm.dock_truck.is_present ≡ false)
    × (v.shm.running ≡ false)
unfolding has_flag
stop-ends_truck_example =
    stop-ends_truck sys_admin true 7 2 200000000 2000000 open_day refl open_day-IsDockQuiet refl
      refl refl

abbrev terminated : World ℕ
terminated = record at_dock { faults = some eintr ∷ [] }

abbrev removed : World ℕ
removed = record start {
  shm = record init_state { running = false };
  faults = some eidrm ∷ some einval ∷ some einval ∷ some einval ∷ some einval ∷ some einval ∷ [];
}

removal-ends_dispatcher_example :
    (v : World ℕ) × ((Dispatcher.process_next_package [] >>= λ _.
    logout (record { current_session = some 3 }))
        removed
      ≡ returned (new_session_manager, v))
removal-ends_dispatcher_example =
    removal-ends_dispatcher [] 3 removed eidrm einval einval einval einval einval refl
      (refl, (refl, (refl, (refl, tt)))) (refl, (refl, tt)) refl

-- two packages of type A, 5 kg and 6 kg
abbrev two_light : List (Draw ℕ)
two_light =
    record { weight = 5000000; type_roll = 0 } ∷ record { weight = 6000000; type_roll = 0 } ∷ []

vip-delivers_example :
    (u v : World ℕ) × (handle_vip operator open_day ≡ returned (vip_request_sent 9 ∷ [], u))
    × ((receive_signal_blocking 9 >>= on_signal two_light) u ≡ returned (true, v))
    × (truck : TruckState ℕ) × (over : Bool) × Boards two_light empty_truck truck over
    × (v.shm ≡ record open_day.shm { dock_truck = truck })
    × (v.queue ≡ open_day.queue ++ left_over over empty_truck)
unfolding has_flag find_process_by_role first_for init_world strncpy bytes_eq string_of
vip-delivers_example =
    vip-delivers operator 9 two_light open_day refl open_day-IsDockQuiet refl refl (omega arith)
      refl

abbrev ordered : World ℕ
ordered = record open_day { queue = orders 9 (two_light ∷ []) ++ [] }

-- A SIGTERM before the worker is made, one turn, and then another SIGTERM.
signalled_work_lem_example :
    signalled_work 1 40
      (me 0)
      (sigterm ∷ [])
      (([], light_turn) ∷ (sigterm ∷ [], light_turn) ∷ [])
      open_day
    ≡ work 40 (me 0) (light_turn ∷ []) open_day
signalled_work_lem_example =
    signalled_work_lem 1 40 (me 0) (sigterm ∷ []) (light_turn ∷ []) sigterm [] light_turn []
      open_day
