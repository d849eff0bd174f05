-- ===== src/Examples/Piers.antt =====
-- A truck docks, and then a turn of the dispatcher, which waited for the dock, loads a package onto it.
use so_magazyn_firmy_spedycy.Base.{
  ℕ, ◌*◌, ◌≤◌, ◌<◌, ◌⊎◌, ◌≡◌, ◌<=◌, refl, arith, true, [], ◌∷◌, none, some, micro_double, update,
}
use so_magazyn_firmy_spedycy.Manager.{World, ◌>>=◌, pure, init_world, eidrm}
use so_magazyn_firmy_spedycy.Express.{deliver_express_batch}
use so_magazyn_firmy_spedycy.Dock.{
  Errand, docks, loads, delivers, Place, outside, about_to, in_dock, has_read, sends, Threads,
  advance, perform, targets, Elsewhere, Move, calls, goes_on, Reach, start, next,
}
use so_magazyn_firmy_spedycy.Shared.{SharedState}
use so_magazyn_firmy_spedycy.Dock.Berth.{IsAt, Leaving, Move-IsAt}
use so_magazyn_firmy_spedycy.Dock.Promises.{Effect, Move_acts, within_limits}
use so_magazyn_firmy_spedycy.Dock.Drain.{dock_drains}
use so_magazyn_firmy_spedycy.Manager.Runs.{Run, stays, goes, GoesOn}
use so_magazyn_firmy_spedycy.Dock.Pieces.{pieces}
use so_magazyn_firmy_spedycy.Dock.Methods.{errands_lem}
use so_magazyn_firmy_spedycy.Examples.Data
use so_magazyn_firmy_spedycy.Examples.Data.{small_package}

abbrev arrival : Errand ℕ
arrival = docks 7 200_000_000 2_000_000

abbrev turn : Errand ℕ
turn = loads small_package

abbrev docked_world : World ℕ
docked_world = record Data.start {
  shm = perform arrival Data.start.shm;
  sem = record Data.start.sem { dock_mutex = 0 };
}

-- The truck has unlocked the dock, and the dispatcher has locked and read it.
abbrev docked_at : ℕ → Place ℕ
docked_at =
    let waiting = update (update (λ i. outside) 0 (about_to arrival)) 1 (about_to turn) in
    let assigned =
      update (update (update waiting 0 (in_dock arrival)) 0 (has_read arrival Data.start.shm)) 0
        (sends []) in
    update (update (update assigned 0 outside) 1 (in_dock turn)) 1 (has_read turn docked_world.shm)

abbrev docked_threads : Threads ℕ
docked_threads = record { world = docked_world; at = docked_at }

docked-Reach : Reach 2 docked_threads
unfolding init_world advance perform targets
docked-Reach =
    next
      (next
        (next
          (next
            (next
              (next
                (next (next start (calls 0 arrival (omega arith) refl (refl, refl)))
                  (calls 1 turn (omega arith) refl tt))
                (goes_on 0 (omega arith) refl))
              (goes_on 0 (omega arith) refl))
            (goes_on 0 (omega arith) refl))
          (goes_on 0 (omega arith) refl))
        (goes_on 1 (omega arith) refl))
      (goes_on 1 (omega arith) refl)

abbrev loaded_threads : Threads ℕ
loaded_threads = record {
  world = record docked_world { shm = perform turn docked_world.shm };
  at = update docked_at 1 (sends []);
}

loading-Move : Move 2 docked_threads loaded_threads
unfolding init_world advance perform targets
loading-Move = goes_on 1 (omega arith) refl

Move_acts_example : Effect docked_threads loaded_threads
Move_acts_example = Move_acts docked-Reach loading-Move

Move-IsAt_example :
    IsAt 7 loaded_threads.world.shm
    ⊎ ((i : ℕ) × (errand : Errand ℕ) × (seen : SharedState ℕ) × (docked_threads.at i
          ≡ has_read errand seen)
        × Leaving 7 errand)
unfolding perform init_world
Move-IsAt_example = Move-IsAt 7 docked-Reach loading-Move (refl, refl)

loading-Run :
    Run advance outside Elsewhere 2 docked_threads.world docked_threads.at 1 loaded_threads.world
      loaded_threads.at
unfolding init_world advance perform targets
loading-Run = goes 1 stays (omega arith) (λ e. cc e) refl

dock_drains_example :
    (1 ≤ 5 * 2)
    × (((i : ℕ) → i < 2 → loaded_threads.at i ≡ outside)
        ⊎ GoesOn advance outside 2 loaded_threads.world loaded_threads.at)
dock_drains_example = dock_drains docked-Reach loading-Run

within_limits_example :
    ((loaded_threads.world.shm.dock_truck.current_weight
        <= loaded_threads.world.shm.dock_truck.max_weight)
      ≡ true)
    × ((loaded_threads.world.shm.dock_truck.current_volume
          <= loaded_threads.world.shm.dock_truck.max_volume)
        ≡ true)
unfolding perform init_world
within_limits_example = within_limits (next docked-Reach loading-Move) refl

-- The semaphores are removed while the P4 worker is behind its lock.
abbrev removed : World ℕ
removed = record Data.at_dock { faults = none ∷ some eidrm ∷ [] }

abbrev two_draws : Errand ℕ
two_draws = delivers (
    record { weight = 5_000_000; type_roll = 0 }
    ∷ record { weight = 300_000_000; type_roll = 2 }
    ∷ [])

errands_lem_example :
    pieces 5 (about_to two_draws) removed
    ≡ (deliver_express_batch (
            record { weight = 5_000_000; type_roll = 0 }
            ∷ record { weight = 300_000_000; type_roll = 2 }
            ∷ [])
          >>= λ _. pure outside)
        removed
errands_lem_example = errands_lem two_draws removed
