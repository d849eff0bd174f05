-- ===== src/Dispatcher/Loading.antt =====
-- include/Dispatcher.h: one turn of the loading loop, when the dock mutex is free and no system call
-- fails.
use mathlib.Core.List.{append-nil}
use so_magazyn_firmy_spedycy.Base.{
  ◌≡◌, Bool, not, ◌&&◌, List, [], ◌∷◌, ◌++◌, arith, Double, if◌then◌else◌,
}
use so_magazyn_firmy_spedycy.Shared.{
  Package, SharedState, CommandMessage, signal_code, signal_departure,
}
use so_magazyn_firmy_spedycy.Manager.{World, returned, IsDockQuiet}
use so_magazyn_firmy_spedycy.Dispatcher.{try_load}
use so_magazyn_firmy_spedycy.Dispatcher.Class.{fits, load, is_full}

module _ {W : Type 0} ⦃d : Double W⦄ where
  -- A truck is there and has room.
  abbrev pub accepts : Package W → SharedState W → Bool
  accepts pkg shm = shm.dock_truck.is_present && fits pkg shm.dock_truck

  abbrev pub loaded_state : Package W → SharedState W → SharedState W
  loaded_state pkg shm =
      if accepts pkg shm then record shm { dock_truck = load pkg shm.dock_truck } else shm

  abbrev pub departure_for : SharedState W → CommandMessage
  departure_for shm = record {
    mtype = shm.dock_truck.id;
    command_id = signal_code signal_departure;
  }

  -- the messages that a turn sends
  abbrev pub dismissal : Package W → SharedState W → List CommandMessage
  dismissal pkg shm =
      if shm.dock_truck.is_present
      then (if fits pkg shm.dock_truck && not (is_full (load pkg shm.dock_truck))
          then []
          else departure_for shm ∷ [])
      else []

  -- With the dock mutex free and no failing call, a turn of the loop loads the package exactly if a
  -- truck is at the dock and the package keeps it within both its limits, and then adds it to
  -- the truck's weight, volume and count; it sends SIGNAL_DEPARTURE to the truck at the dock
  -- exactly if the package does not fit or fills it; it changes nothing else and frees the mutex.
  pub try_load_lem :
      (pkg : Package W) (w : World W)
      → IsDockQuiet w
      → try_load pkg w
        ≡ returned (
          accepts pkg w.shm,
          record w { shm = loaded_state pkg w.shm; queue = w.queue ++ dismissal pkg w.shm },
        )
  unfolding try_load
  try_load_lem pkg w q = ground (arith, append-nil w.queue)
