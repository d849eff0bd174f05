-- ===== src/Examples/Trails.antt =====
-- The audit trail: a package with one record gets six more.
use so_magazyn_firmy_spedycy.Base.{ℕ, List, ◌∷◌, replicate, micro_double}
use so_magazyn_firmy_spedycy.Shared.{Package, zero_action, action_created, action_picked_up}
use so_magazyn_firmy_spedycy.Shared.Trail.{Entry}
use so_magazyn_firmy_spedycy.Examples.Data.{small_package}

abbrev created_package : Package ℕ
created_package = record small_package {
  history =
      record { type = action_created; actor_pid = 40; timestamp = 100 } ∷ replicate 5 zero_action;
  history_count = 1;
}

abbrev six_pickups : List Entry
six_pickups = replicate 6 (record { action = action_picked_up; pid = 41; now = 101; later = 102 })
