-- ===== src/Express/Boarding.antt =====
-- include/Express.h: where the packages of a batch go, one by one.
use so_magazyn_firmy_spedycy.Base.{
  ℕ, zero, suc, ◌≡◌, refl, ap, ◌∙◌, subst, Bool, true, false, List, [], ◌∷◌, ◌++◌, arith, Double,
  ◌⊕◌, ◌<=◌, if◌then◌else◌, Bool-cases, inl, inr,
}
use so_magazyn_firmy_spedycy.Shared.{
  TruckState, CommandMessage, signal_code, signal_departure, vol_a, vol_b, vol_c,
}
use so_magazyn_firmy_spedycy.Manager.{World, returned, IsDockQuiet}
use so_magazyn_firmy_spedycy.Express.{deliver_express_batch}
use so_magazyn_firmy_spedycy.Express.Class.{Draw, fits, load, vol_of}
use so_magazyn_firmy_spedycy.Express.Batch.{batch_truck, batch_signal, deliver_express_batch_lem}

module _ {W : Type 0} ⦃d : Double W⦄ where
  -- the volume of a package by its type
  abbrev pub volume_of : ℕ → W
  volume_of (suc zero) = vol_b
  volume_of (suc (suc zero)) = vol_c
  volume_of _ = vol_a

  abbrev pub with_draw : Draw W → TruckState W → TruckState W
  with_draw draw truck = record truck {
    current_weight = truck.current_weight ⊕ draw.weight;
    current_volume = truck.current_volume ⊕ volume_of draw.type_roll;
  }

  abbrev pub HasRoom : Draw W → TruckState W → Type 0
  HasRoom draw truck =
      (((truck.current_weight ⊕ draw.weight) <= truck.max_weight) ≡ true)
      × (((truck.current_volume ⊕ volume_of draw.type_roll) <= truck.max_volume) ≡ true)

  -- The packages of a batch take a truck from one state to another, up to the first that has no room; then a
  -- package is left over.
  pub data Boards : List (Draw W) → TruckState W → TruckState W → Bool → Type 0 where
    all_on : {truck : TruckState W} → Boards [] truck truck false
    one_on :
        {draw : Draw W} {draws : List (Draw W)} {truck last : TruckState W} {over : Bool}
        → HasRoom draw truck
        → Boards draws (with_draw draw truck) last over
        → Boards (draw ∷ draws) truck last over
    no_room :
        {draw : Draw W} {draws : List (Draw W)} {truck : TruckState W}
        → ¬ HasRoom draw truck
        → Boards (draw ∷ draws) truck truck true

  vol_of_lem : (n : ℕ) → vol_of n ≡ volume_of n
  vol_of_lem n = ground arith

  fits-HasRoom :
      (draw : Draw W) (truck : TruckState W) → fits draw truck ≡ true → HasRoom draw truck
  fits-HasRoom draw truck e = (ground (arith, e), ground (arith, e, vol_of_lem draw.type_roll))

  HasRoom-fits :
      (draw : Draw W) (truck : TruckState W) → HasRoom draw truck → fits draw truck ≡ true
  HasRoom-fits draw truck (a, b) = ground (arith, a, b, vol_of_lem draw.type_roll)

  load-with_draw : (draw : Draw W) (truck : TruckState W) → load draw truck ≡ with_draw draw truck
  load-with_draw draw truck = ground (arith, vol_of_lem draw.type_roll)

  -- the message of a batch of which a package is left over
  abbrev pub left_over : Bool → TruckState W → List CommandMessage
  left_over over truck =
      if over
      then record { mtype = truck.id; command_id = signal_code signal_departure } ∷ []
      else []

  -- The world after a batch: the truck that it leaves at the dock, and whether a package is left over.
  abbrev pub delivered : World W → TruckState W → Bool → World W
  delivered w truck over = record w {
    shm = record w.shm { dock_truck = truck };
    queue = w.queue ++ left_over over w.shm.dock_truck;
  }

  pub batch_truck-Boards :
      (draws : List (Draw W)) (truck : TruckState W)
      → (over : Bool) × Boards draws truck (batch_truck draws truck) over
        × (batch_signal draws truck ≡ left_over over truck)
  batch_truck-Boards [] truck = (false, all_on, refl)
  batch_truck-Boards (draw ∷ draws) truck = elim (Bool-cases (fits draw truck)) [
    | inl room ↦
        let (over, boards, signal) = batch_truck-Boards draws (load draw truck) in
        (
          over,
          subst (λ last. Boards (draw ∷ draws) truck last over) (ground (arith, room))
              (one_on (fits-HasRoom draw truck room) (
                subst (λ t. Boards draws t (batch_truck draws (load draw truck)) over)
                  (load-with_draw draw truck) boards)),
          ground (arith, room, signal),
        )
    | inr full ↦ (
      true,
      subst (λ last. Boards (draw ∷ draws) truck last true) (ground (arith, full))
          (no_room (λ room. absurd (ground (arith, HasRoom-fits draw truck room, full)))),
      ground (arith, full),
    )
  ]

  -- With the dock mutex free, no failing call and a truck at the dock, the packages of a batch go onto the truck
  -- one by one, each adding its weight and the volume of its type, up to the first that would pass
  -- a limit. If a package is left over, that truck, and no other process, is sent SIGNAL_DEPARTURE. The
  -- truck's count of packages stays as it was.
  pub deliver-Boards :
      (draws : List (Draw W)) (w : World W)
      → IsDockQuiet w
      → w.shm.dock_truck.is_present ≡ true
      → (truck : TruckState W) × (over : Bool) × Boards draws w.shm.dock_truck truck over
        × (deliver_express_batch draws w ≡ returned (tt, delivered w truck over))
        × (truck.current_load ≡ w.shm.dock_truck.current_load)
  deliver-Boards draws w q here =
      let (over, boards, signal) = batch_truck-Boards draws w.shm.dock_truck in
      let (ran, count) = deliver_express_batch_lem draws w q here in
      (
        batch_truck draws w.shm.dock_truck,
        over,
        boards,
        ran
            ∙ ap
                (λ ms. returned (
                  tt,
                  record w {
                    shm = record w.shm { dock_truck = batch_truck draws w.shm.dock_truck };
                    queue = w.queue ++ ms;
                  },
                ))
                signal,
        count,
      )
