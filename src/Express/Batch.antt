-- ===== src/Express/Batch.antt =====
-- include/Express.h: a batch, when the dock mutex is free and no system call fails.
use mathlib.Core.List.{append-nil}
use so_magazyn_firmy_spedycy.Base.{
  ℕ, suc, ◌≡◌, refl, true, false, List, [], ◌∷◌, ◌++◌, arith, Double, ◌<=◌, length, take, ltb,
  if◌then◌else◌, Bool-cases, inl, inr,
}
use so_magazyn_firmy_spedycy.Shared.{TruckState, CommandMessage, signal_code, signal_departure}
use so_magazyn_firmy_spedycy.Manager.{World, returned, IsDockQuiet}
use so_magazyn_firmy_spedycy.Express.{express, deliver_express_batch}
use so_magazyn_firmy_spedycy.Express.Class
use so_magazyn_firmy_spedycy.Express.Class.{Draw, fits, load}

module _ {W : Type 0} ⦃d : Double W⦄ where
  -- how many packages of the batch get onto the truck, before the first that does not fit
  abbrev pub loadable : List (Draw W) → TruckState W → ℕ
  loadable [] truck = 0
  loadable (draw ∷ draws) truck =
      let more = loadable draws (load draw truck) in if fits draw truck then suc more else 0

  abbrev pub load_all : List (Draw W) → TruckState W → TruckState W
  load_all [] truck = truck
  load_all (draw ∷ draws) truck = load_all draws (load draw truck)

  abbrev pub batch_truck : List (Draw W) → TruckState W → TruckState W
  batch_truck draws truck = load_all (take (loadable draws truck) draws) truck

  -- the message that a batch that does not fit sends
  abbrev pub batch_signal : List (Draw W) → TruckState W → List CommandMessage
  batch_signal draws truck =
      if ltb (loadable draws truck) (length draws)
      then record { mtype = truck.id; command_id = signal_code signal_departure } ∷ []
      else []

  load_batch-quiet :
      (draws : List (Draw W)) (w : World W)
      → w.faults ≡ []
      → Class.load_batch express draws w
        ≡ returned (
          tt,
          record w {
            shm = record w.shm { dock_truck = batch_truck draws w.shm.dock_truck };
            queue = w.queue ++ batch_signal draws w.shm.dock_truck;
          },
        )
  unfolding express Class.load_batch
  load_batch-quiet [] w q = ground (arith, append-nil w.queue)
  load_batch-quiet (draw ∷ draws) w q = elim (Bool-cases (fits draw w.shm.dock_truck)) [
    | inl e ↦ ground (arith, load_batch-quiet draws onto q)
    | inr e ↦ ground arith
  ]
    where
      onto : World W
      onto = record w { shm = record w.shm { dock_truck = load draw w.shm.dock_truck } }

  current_load-load_all :
      (draws : List (Draw W)) (truck : TruckState W)
      → (load_all draws truck).current_load ≡ truck.current_load
  current_load-load_all [] truck = refl
  current_load-load_all (draw ∷ draws) truck = current_load-load_all draws (load draw truck)

  -- With the dock mutex free, no failing call and a truck at the dock, a batch puts its packages on
  -- the truck one by one up to the first that would pass a limit, adds their weights and volumes to
  -- the truck's, and leaves its count of packages as it was. If a package is left over, the
  -- truck, and no other process, is sent SIGNAL_DEPARTURE.
  pub deliver_express_batch_lem :
      (draws : List (Draw W)) (w : World W)
      → IsDockQuiet w
      → w.shm.dock_truck.is_present ≡ true
      → let truck = batch_truck draws w.shm.dock_truck in
        (deliver_express_batch draws w
          ≡ returned (
            tt,
            record w {
              shm = record w.shm { dock_truck = truck };
              queue = w.queue ++ batch_signal draws w.shm.dock_truck;
            },
          ))
        × (truck.current_load ≡ w.shm.dock_truck.current_load)
  unfolding deliver_express_batch
  deliver_express_batch_lem draws w q here = (
    ground (arith, load_batch-quiet draws locked q.no_faults),
    current_load-load_all (take (loadable draws w.shm.dock_truck) draws) w.shm.dock_truck,
  )
    where
      locked : World W
      locked = record w { sem = record w.sem { dock_mutex = 0 } }

  -- With no truck at the dock a batch changes nothing.
  pub deliver-no_truck :
      (draws : List (Draw W)) (w : World W)
      → IsDockQuiet w
      → w.shm.dock_truck.is_present ≡ false
      → deliver_express_batch draws w ≡ returned (tt, w)
  unfolding deliver_express_batch
  deliver-no_truck draws w q gone = ground arith

  pub batch_truck-same :
      (draws : List (Draw W)) (truck : TruckState W)
      → ((batch_truck draws truck).id ≡ truck.id)
        × ((batch_truck draws truck).is_present ≡ truck.is_present)
        × ((batch_truck draws truck).max_weight ≡ truck.max_weight)
        × ((batch_truck draws truck).max_volume ≡ truck.max_volume)
  batch_truck-same [] truck = (refl, refl, refl, refl)
  batch_truck-same (draw ∷ draws) truck = ground (arith, batch_truck-same draws (load draw truck))

  -- A batch keeps a truck that is within its two limits within them.
  pub batch_truck-within :
      (draws : List (Draw W)) (truck : TruckState W)
      → (truck.current_weight <= truck.max_weight) ≡ true
      → (truck.current_volume <= truck.max_volume) ≡ true
      → (((batch_truck draws truck).current_weight <= truck.max_weight) ≡ true)
        × (((batch_truck draws truck).current_volume <= truck.max_volume) ≡ true)
  batch_truck-within [] truck hw hv = (hw, hv)
  batch_truck-within (draw ∷ draws) truck hw hv =
      ground (arith, batch_truck-within draws (load draw truck))
