-- ===== src/Examples/Docks.antt =====
-- The dock: a truck, the dispatcher and the P4 worker.
use so_magazyn_firmy_spedycy.Base.{false, Bool, ℕ, ◌≡◌, refl, false, List, [], ◌∷◌, micro_double}
use so_magazyn_firmy_spedycy.Manager.{World, returned, init_world, first_for}
use so_magazyn_firmy_spedycy.Truck.Class.{joining}
use so_magazyn_firmy_spedycy.Dispatcher.{try_load}
use so_magazyn_firmy_spedycy.Express.{deliver_express_batch}
use so_magazyn_firmy_spedycy.Express.Class.{Draw}
use so_magazyn_firmy_spedycy.Dispatcher.Verdict.{Verdict, try_load-Verdict}
use so_magazyn_firmy_spedycy.Express.Boarding.{Boards, delivered, deliver-Boards}
use so_magazyn_firmy_spedycy.Shared.{TruckState}
use so_magazyn_firmy_spedycy.Fleet.Stale.{two_attempts, stale_departure}
use so_magazyn_firmy_spedycy.Examples.Data.{
  small_package, huge_package, at_dock, at_dock-IsDockQuiet, empty_truck,
}

try_load-Verdict_example :
    (loaded : Bool) × (v : World ℕ) × (try_load small_package at_dock ≡ returned (loaded, v))
    × Verdict small_package at_dock loaded v
try_load-Verdict_example = try_load-Verdict small_package at_dock at_dock-IsDockQuiet

-- two packages of type A, 5 kg and 300 kg
abbrev batch : List (Draw ℕ)
batch =
    record { weight = 5000000; type_roll = 0 } ∷ record { weight = 300000000; type_roll = 0 } ∷ []

deliver-Boards_example :
    (truck : TruckState ℕ) × (over : Bool) × Boards batch empty_truck truck over
    × (deliver_express_batch batch at_dock ≡ returned (tt, delivered at_dock truck over))
    × (truck.current_load ≡ 0)
deliver-Boards_example = deliver-Boards batch at_dock at_dock-IsDockQuiet refl

stale_departure_example :
    (v : World ℕ) × (two_attempts huge_package 7 200000000 2000000 at_dock ≡ returned (joining, v))
    × (v.shm.dock_truck.current_load ≡ 0)
    × (v.shm.dock_truck.is_present ≡ false)
    × (v.shm.trucks_completed ≡ 2)
unfolding init_world first_for
stale_departure_example =
    stale_departure huge_package 7 200000000 2000000 at_dock at_dock-IsDockQuiet refl refl refl refl
      refl

-- The system was stopped before the loop.
abbrev halted : World ℕ
halted = record at_dock { shm = record at_dock.shm { running = false } }
