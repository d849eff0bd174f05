-- ===== src/Examples/Threads.antt =====
-- Two processes on one belt: the first has locked it to push, the second is about to register.
use so_magazyn_firmy_spedycy.Base.{
  ℕ, ◌++◌, ◌*◌, ◌≤◌, ◌⊎◌, ◌≡◌, ◌<◌, refl, arith, none, some, [], ◌∷◌, micro_double, codes, update,
}
use so_magazyn_firmy_spedycy.Manager.{
  World, pure, ◌>>=◌, ◌>>◌, init_world, eintr, wait_for_empty_slot, wait_for_package,
}
use so_magazyn_firmy_spedycy.Belt.{push, pop, register_worker}
use so_magazyn_firmy_spedycy.Belt.Class.{place, numbered}
use so_magazyn_firmy_spedycy.Belt.Refine.{view}
use so_magazyn_firmy_spedycy.Belt.Threads.{
  outside, has_slot, in_push, saw_push, placed, has_package, advance, Threads, Move, calls_push,
  calls, about_to, on_duty, has_read, relieved, Duty, registering, entering, perform, goes_on,
  Reach, start, next, SameBelt, Elsewhere,
}
use so_magazyn_firmy_spedycy.Belt.Threads.Ledger.{
  Ledger, opened, entered, numbered_from, all_numbered,
}
use so_magazyn_firmy_spedycy.Belt.Threads.Drain.{belt_drains}
use so_magazyn_firmy_spedycy.Manager.Runs.{Run, stays, goes, GoesOn}
use so_magazyn_firmy_spedycy.Belt.Threads.Pieces.{pieces}
use so_magazyn_firmy_spedycy.Belt.Threads.Methods.{methods_lem}
use so_magazyn_firmy_spedycy.Belt.Threads.Sessions.{IsKept, always-IsKept}
use so_magazyn_firmy_spedycy.Session.{session_of, write_user, enter, has_user, free_slot}
use so_magazyn_firmy_spedycy.Shared.{operator}
use so_magazyn_firmy_spedycy.Belt.Threads.Promises.{
  Effect, no_lost_update, mutual_exclusion, Move_refines,
}
use so_magazyn_firmy_spedycy.Examples.Data
use so_magazyn_firmy_spedycy.Examples.Data.{small_package}

abbrev locking_world : World ℕ
locking_world = record Data.start {
  sem = record { mutex_belt = 0; empty_slots = 9; full_slots = 0; dock_mutex = 1 };
}

abbrev waiting : Threads ℕ
waiting = record {
  world = record locking_world { sem = record locking_world.sem { mutex_belt = 1 } };
  at = update (update (λ i. outside) 0 (has_slot small_package)) 1 (about_to registering);
}

abbrev locking : Threads ℕ
locking = record {
  world = locking_world;
  at =
      update (update waiting.at 0 (in_push small_package)) 0
        (saw_push small_package Data.start.shm);
}

waiting-Reach : Reach 2 waiting
unfolding init_world wait_for_empty_slot
waiting-Reach =
    next (next start (calls_push 0 small_package (omega arith) refl refl))
      (calls 1 registering (omega arith) refl)

locking-Reach : Reach 2 locking
unfolding init_world advance
locking-Reach =
    next (next waiting-Reach (goes_on 0 (omega arith) refl)) (goes_on 0 (omega arith) refl)

abbrev placing : Threads ℕ
placing = record {
  world = record locking_world { shm = place small_package locking_world.shm };
  at = update locking.at 0 (placed (numbered small_package locking_world.shm));
}

placing-Move : Move 2 locking placing
unfolding init_world advance
placing-Move = goes_on 0 (omega arith) refl

mutual_exclusion_example : (◌≡◌ {A = ℕ} 0 0) × (locking.world.sem.mutex_belt ≡ 0)
mutual_exclusion_example = mutual_exclusion locking-Reach 0 0 (omega arith) (omega arith) refl refl

placing-Ledger : Ledger 2 placing (small_package ∷ []) []
unfolding init_world wait_for_empty_slot advance
placing-Ledger =
    entered
      (entered
        (entered
          (entered (entered opened (calls_push 0 small_package (omega arith) refl refl))
            (calls 1 registering (omega arith) refl))
          (goes_on 0 (omega arith) refl))
        (goes_on 0 (omega arith) refl))
      (goes_on 0 (omega arith) refl)

all_numbered_example : [] ++ (view placing.world).items ≡ numbered_from 1 (small_package ∷ [])
all_numbered_example = all_numbered placing-Ledger (omega arith)

no_lost_update_example : SameBelt Data.start.shm locking.world.shm
no_lost_update_example = no_lost_update locking-Reach 0 Data.start.shm (omega arith) refl

placing-Run : Run advance outside Elsewhere 2 locking.world locking.at 1 placing.world placing.at
unfolding init_world advance
placing-Run = goes 0 stays (omega arith) (λ e. cc e) refl

belt_drains_example :
    (1 ≤ 5 * 2)
    × (((i : ℕ) → i < 2 → placing.at i ≡ outside)
        ⊎ GoesOn advance outside 2 placing.world placing.at)
belt_drains_example = belt_drains locking-Reach placing-Run

Move_refines_example : Effect locking placing
Move_refines_example = Move_refines locking-Reach placing-Move

-- Process 1 logs in, and has not unlocked the belt yet.
abbrev entering_world : World ℕ
entering_world = record Data.start {
  shm = write_user 0 (session_of (codes "System-Belt") operator 0 1 50) Data.start.shm;
  sem = record { mutex_belt = 0; empty_slots = 10; full_slots = 0; dock_mutex = 1 };
}

abbrev login_duty : Duty
login_duty = entering (codes "System-Belt") operator 0 1 50

abbrev logging_in : Threads ℕ
logging_in = record {
  world = entering_world;
  at =
      update
        (update (update (update (λ i. outside) 1 (about_to login_duty)) 1 (on_duty login_duty)) 1
          (has_read login_duty Data.start.shm))
        1 (relieved login_duty);
}

logging_in-Reach : Reach 2 logging_in
unfolding init_world advance perform enter has_user free_slot
logging_in-Reach =
    next
      (next
        (next (next start (calls 1 login_duty (omega arith) refl)) (goes_on 1 (omega arith) refl))
        (goes_on 1 (omega arith) refl))
      (goes_on 1 (omega arith) refl)

always-IsKept_example : IsKept logging_in.world.shm
always-IsKept_example = always-IsKept logging_in-Reach

abbrev interrupted : World ℕ
interrupted = record Data.start { faults = none ∷ some eintr ∷ [] }

methods_lem_example :
    ((wait_for_empty_slot >> pieces 5 (has_slot small_package)) interrupted
      ≡ (push small_package >>= λ p. pure outside) interrupted)
    × ((wait_for_package >> pieces 5 has_package) interrupted
        ≡ (pop >>= λ p. pure outside) interrupted)
    × (pieces 4 (about_to registering) interrupted
        ≡ (register_worker >>= λ _. pure outside) interrupted)
methods_lem_example = methods_lem small_package registering interrupted
