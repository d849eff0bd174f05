-- ===== src/Examples/Data.antt =====
-- Worlds and packages that the examples share.
use so_magazyn_firmy_spedycy.Base.{ℕ, true, [], ◌∷◌, codes, micro_double, refl}
use so_magazyn_firmy_spedycy.Shared.{
  Package, UserSession, TruckState, zero_package, zero_truck, type_a, vol_a, init_state, viewer,
  operator,
}
use so_magazyn_firmy_spedycy.Manager.{World, IsDockQuiet, init_world}
use so_magazyn_firmy_spedycy.Session.{session_of}

-- 5 kg, type A
abbrev pub small_package : Package ℕ
small_package = record zero_package { type = type_a; weight = 5000000; volume = vol_a }

-- 300 kg, type A
abbrev pub huge_package : Package ℕ
huge_package = record zero_package { type = type_a; weight = 300000000; volume = vol_a }

abbrev pub start : World ℕ
start = init_world

-- truck 7, at the dock with nothing on it: 200 kg and 2 m³
abbrev pub empty_truck : TruckState ℕ
empty_truck = record zero_truck {
  is_present = true;
  id = 7;
  max_load = 100;
  max_weight = 200000000;
  max_volume = 2000000;
}

abbrev pub at_dock : World ℕ
at_dock = record start { shm = record init_state { dock_truck = empty_truck } }

abbrev pub worker_session : UserSession
worker_session = session_of (codes "worker-1") operator 1 3 40

abbrev pub viewer_session : UserSession
viewer_session = session_of (codes "guest") viewer 2 1 41

-- A worker with a quota of three is logged in at entry 0, and a viewer at entry 1.
abbrev pub staffed : World ℕ
staffed = record start { shm = record init_state { users = worker_session ∷ viewer_session ∷ [] } }

pub at_dock-IsDockQuiet : IsDockQuiet at_dock
unfolding init_world
at_dock-IsDockQuiet = record { dock_free = refl; no_faults = refl }
