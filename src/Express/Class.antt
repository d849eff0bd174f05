-- ===== src/Express/Class.antt =====
-- include/Express.h, `class Express`, whatever the callbacks that its constructor is given. What the
-- generators draw is an argument: for each package its weight and its roll of `type_dist`, as many
-- as `batch_dist` says.
use so_magazyn_firmy_spedycy.Base.{
  ℕ, Bool, ◌&&◌, List, [], ◌∷◌, Double, ◌⊕◌, ◌<=◌, ◌==◌, if◌then◌else◌,
}
use so_magazyn_firmy_spedycy.Shared.{TruckState, SignalType, signal_departure, vol_a, vol_b, vol_c}
use so_magazyn_firmy_spedycy.Manager.{M, pure, ◌>>=◌, ◌>>◌, get_state, put_state}

-- The fields of the class. `attached` says that `shm` is not the null pointer.
pub record Express (W : Type 0) : Type 0 where
  pub attached : Bool
  pub lock_dock_fn : M W (Unit {0})
  pub unlock_dock_fn : M W (Unit {0})
  pub send_signal_fn : ℕ → SignalType → M W (Unit {0})

pub record Draw (W : Type 0) : Type 0 where
  pub weight : W
  pub type_roll : ℕ

module _ {W : Type 0} ⦃d : Double W⦄ where
  abbrev pub vol_of : ℕ → W
  vol_of t = if t == 2 then vol_c else (if t == 1 then vol_b else vol_a)

  abbrev pub fits : Draw W → TruckState W → Bool
  fits draw truck =
      ((truck.current_weight ⊕ draw.weight) <= truck.max_weight)
      && ((truck.current_volume ⊕ vol_of draw.type_roll) <= truck.max_volume)

  -- `current_load` is not counted here.
  abbrev pub load : Draw W → TruckState W → TruckState W
  load draw truck = record truck {
    current_weight = truck.current_weight ⊕ draw.weight;
    current_volume = truck.current_volume ⊕ vol_of draw.type_roll;
  }

  -- the loop of `deliverExpressBatch`, which a package that does not fit breaks
  unfoldable pub load_batch : Express W → List (Draw W) → M W (Unit {0})
  load_batch x [] = pure tt
  load_batch x (draw ∷ draws) = get_state >>= λ shm.
      if fits draw shm.dock_truck
      then (put_state (record shm { dock_truck = load draw shm.dock_truck }) >> load_batch x draws)
      else x.send_signal_fn shm.dock_truck.id signal_departure

  unfoldable pub deliver_express_batch : Express W → List (Draw W) → M W (Unit {0})
  unfolding load_batch
  deliver_express_batch x draws =
      if x.attached
      then (do
        x.lock_dock_fn
        shm ← get_state
        if shm.dock_truck.is_present
            then (do load_batch x draws; x.unlock_dock_fn)
            else x.unlock_dock_fn)
      else pure tt
