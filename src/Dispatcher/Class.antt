-- ===== src/Dispatcher/Class.antt =====
-- include/Dispatcher.h, `class Dispatcher`: one turn of its loading loop, whatever the callbacks that its
-- constructor is given.
use so_magazyn_firmy_spedycy.Base.{
  ℕ, Bool, true, false, ◌&&◌, ◌||◌, Double, decimal, ◌⊕◌, ◌⊗◌, ◌<=◌, leb, int_inc, if◌then◌else◌,
}
use so_magazyn_firmy_spedycy.Shared.{Package, SharedState, TruckState, SignalType, signal_departure}
use so_magazyn_firmy_spedycy.Manager.{M, pure, ◌>>=◌, ◌>>◌, get_state, put_state}
use so_magazyn_firmy_spedycy.Belt.Class.{Belt}

-- The fields of the class but `shm`, which is the state.
pub record Dispatcher (W : Type 0) : Type 0 where
  pub belt : Belt W
  pub lock_dock_fn : M W (Unit {0})
  pub unlock_dock_fn : M W (Unit {0})
  pub send_signal_fn : ℕ → SignalType → M W (Unit {0})

module _ {W : Type 0} ⦃d : Double W⦄ where
  abbrev pub fits_weight : W → TruckState W → Bool
  fits_weight weight truck = (truck.current_weight ⊕ weight) <= truck.max_weight

  abbrev pub fits_volume : W → TruckState W → Bool
  fits_volume volume truck = (truck.current_volume ⊕ volume) <= truck.max_volume

  -- `fits_weight && fits_volume`
  abbrev pub fits : Package W → TruckState W → Bool
  fits pkg truck = fits_weight pkg.weight truck && fits_volume pkg.volume truck

  abbrev pub load : Package W → TruckState W → TruckState W
  load pkg truck = record truck {
    current_weight = truck.current_weight ⊕ pkg.weight;
    current_volume = truck.current_volume ⊕ pkg.volume;
    current_load = int_inc truck.current_load;
  }

  -- the limit at which a loaded truck is sent off; `a >= b` on doubles is `b <= a`
  abbrev pub is_full : TruckState W → Bool
  is_full truck =
      leb truck.max_load truck.current_load
      || ((truck.max_weight ⊗ decimal 99 2) <= truck.current_weight)
      || ((truck.max_volume ⊗ decimal 99 2) <= truck.current_volume)

  -- what happens to a truck that is present
  abbrev pub load_or_dismiss : Dispatcher W → Package W → SharedState W → M W Bool
  load_or_dismiss x pkg shm =
      let truck = load pkg shm.dock_truck in
      if fits pkg shm.dock_truck
      then (do
        put_state (record shm { dock_truck = truck })
        if is_full truck then x.send_signal_fn truck.id signal_departure else pure tt
        pure true)
      else (do x.send_signal_fn shm.dock_truck.id signal_departure; pure false)

  -- the body of the loop of `processNextPackage`; the result is `loaded`
  unfoldable pub try_load : Dispatcher W → Package W → M W Bool
  try_load x pkg = do
    x.lock_dock_fn
    shm ← get_state
    loaded ← if shm.dock_truck.is_present then load_or_dismiss x pkg shm else pure false
    x.unlock_dock_fn
    pure loaded
