-- ===== src/Dock/Methods.antt =====
-- The pieces of the methods that take the dock mutex, run one after the other, beside the methods.
use so_magazyn_firmy_spedycy.Base.{
  ℕ, suc, Bool, true, false, not, ◌&&◌, ◌≡◌, refl, sym, ◌∙◌, List, [], ◌∷◌, Double, length, ltb,
  arith, if◌then◌else◌, take,
}
use so_magazyn_firmy_spedycy.Shared.{SharedState, TruckState, signal_departure}
use so_magazyn_firmy_spedycy.Manager.{
  World, M, pure, ◌>>=◌, ◌>>◌, put_state, unlock_dock, send_signal, bind-cong, bind_assoc,
  bind-same, then_tt,
}
use so_magazyn_firmy_spedycy.Truck.Class.{joining, docked, randomize_truck_specs}
use so_magazyn_firmy_spedycy.Truck.{truck, depart, shut_down, end_shift, try_dock}
use so_magazyn_firmy_spedycy.Dispatcher.{dispatcher, try_load}
use so_magazyn_firmy_spedycy.Dispatcher.Class.{fits, load, is_full}
use so_magazyn_firmy_spedycy.Express.{deliver_express_batch, express}
use so_magazyn_firmy_spedycy.Express.Class
use so_magazyn_firmy_spedycy.Express.Class.{Draw, load_batch}
use so_magazyn_firmy_spedycy.Express.Batch.{loadable, load_all, batch_truck}
use so_magazyn_firmy_spedycy.Dock.{
  Errand, docks, departs, shuts_down, ends, loads, delivers, Place, outside, about_to, perform,
  targets,
}
use so_magazyn_firmy_spedycy.Dock.Pieces.{
  send_all, finishes, behind_lock, leaves, pieces, whole_method,
}

module _ {W : Type 0} ⦃d : Double W⦄ where
  docks_lem :
      (here : Bool) (s : SharedState W) (v : World W)
      → ((if here
              then (unlock_dock >> pure joining)
              else (put_state s >> (unlock_dock >> pure docked)))
            >>= λ _. pure outside)
          v
        ≡ finishes (if here then v.shm else s) [] v
  docks_lem true s v = leaves joining v
  docks_lem false s v = leaves docked (record v { shm = s })

  -- a message, an unlock, and the result
  sends_and_leaves :
      (m : M W (Unit {0})) (x : Bool) (v : World W)
      → (((m >> pure x) >>= λ l. unlock_dock >> pure l) >>= λ _. pure {A = Place W} outside) v
        ≡ ((m >> pure tt) >> (unlock_dock >> pure outside)) v
  sends_and_leaves m x v =
      bind-same ((m >> pure x) >>= λ l. unlock_dock >> pure l) (m >>= λ _. unlock_dock >> pure x)
        (λ _. pure outside) v (bind_assoc m (λ _. pure x) (λ l. unlock_dock >> pure l) v)
      ∙ bind_assoc m (λ _. unlock_dock >> pure x) (λ _. pure outside) v
      ∙ bind-cong m (λ _. (unlock_dock >> pure x) >>= λ _. pure outside)
          (λ _. unlock_dock >> pure outside) v (λ _ u. leaves x u)
      ∙ sym (bind_assoc m (λ _. pure tt) (λ _. unlock_dock >> pure outside) v)

  loads_lem :
      (here room full : Bool) (id : ℕ) (s : SharedState W) (v : World W)
      → (((if here
                then (if room
                    then (put_state s
                        >> ((if full then send_signal id signal_departure else pure tt)
                            >> pure true))
                    else (send_signal id signal_departure >> pure false))
                else pure false)
              >>= λ l. unlock_dock >> pure l)
            >>= λ _. pure outside)
          v
        ≡ finishes
            (if here && room then s else v.shm)
            (if here then (if room && not full then [] else id ∷ []) else [])
            v
  loads_lem false room full id s v = leaves false v
  loads_lem true false full id s v = sends_and_leaves (send_signal id signal_departure) false v
  loads_lem true true false id s v = leaves true (record v { shm = s })
  loads_lem true true true id s v =
      sends_and_leaves (send_signal id signal_departure) true (record v { shm = s })

  -- what a batch sends
  abbrev departure_of : List (Draw W) → TruckState W → List ℕ
  departure_of draws truck = if ltb (loadable draws truck) (length draws) then truck.id ∷ [] else []

  load_turn :
      (room : Bool) (draw : Draw W) (draws : List (Draw W)) (v : World W)
      → let truck = v.shm.dock_truck in
        let onto = record v.shm { dock_truck = Class.load draw truck } in
        let count = if room then suc (loadable draws (Class.load draw truck)) else 0 in
        (load_batch express draws (record v { shm = onto })
          ≡ (put_state (record onto { dock_truck = batch_truck draws onto.dock_truck })
                >> send_all (departure_of draws onto.dock_truck))
              (record v { shm = onto }))
        → (if room
              then (put_state onto >> load_batch express draws)
              else send_signal truck.id signal_departure)
            v
          ≡ (put_state (record v.shm { dock_truck = load_all (take count (draw ∷ draws)) truck })
                >> send_all (if ltb count (suc (length draws)) then truck.id ∷ [] else []))
              v
  load_turn true draw draws v rest = ground (arith, rest)
  load_turn false draw draws v rest =
      ground (arith, sym (then_tt (send_signal v.shm.dock_truck.id signal_departure) v))

  load_batch_lem :
      (draws : List (Draw W)) (v : World W)
      → load_batch express draws v
        ≡ (put_state (record v.shm { dock_truck = batch_truck draws v.shm.dock_truck })
              >> send_all (departure_of draws v.shm.dock_truck))
            v
  unfolding load_batch express
  load_batch_lem [] v = refl
  load_batch_lem (draw ∷ draws) v = load_turn (Class.fits draw v.shm.dock_truck) draw draws v (
      load_batch_lem draws
        (record v { shm = record v.shm { dock_truck = Class.load draw v.shm.dock_truck } }))

  delivers_lem :
      (here : Bool) (draws : List (Draw W)) (v : World W)
      → ((if here then (load_batch express draws >> unlock_dock) else unlock_dock) >>= λ _.
            pure outside)
          v
        ≡ finishes
            (if here
              then record v.shm { dock_truck = batch_truck draws v.shm.dock_truck }
              else v.shm)
            (if here then departure_of draws v.shm.dock_truck else [])
            v
  delivers_lem false draws v = refl
  delivers_lem true draws v =
      bind-same (load_batch express draws >> unlock_dock) (assigns >> (sending >> unlock_dock))
        (λ _. pure outside) v
        (bind-same (load_batch express draws) (assigns >> sending) (λ _. unlock_dock) v
          (load_batch_lem draws v))
      ∙ bind_assoc sending (λ _. unlock_dock) (λ _. pure outside) after
    where
      truck : TruckState W
      truck = batch_truck draws v.shm.dock_truck

      after : World W
      after = record v { shm = record v.shm { dock_truck = truck } }

      assigns : M W (Unit {0})
      assigns = put_state after.shm

      sending : M W (Unit {0})
      sending = send_all (departure_of draws v.shm.dock_truck)

  -- Whatever the system calls report, the pieces of an errand, run one after the other, return, sleep, exit
  -- and change the world as its method does: the docking, the departure and the two ends of a truck,
  -- a turn of the dispatcher's loading loop, and a batch of the P4 worker.
  pub errands_lem :
      (errand : Errand W) (w : World W) → pieces 5 (about_to errand) w ≡ whole_method errand w
  unfolding truck try_dock depart shut_down end_shift dispatcher try_load express
      deliver_express_batch perform targets randomize_truck_specs
  errands_lem (docks my_pid a b) w = behind_lock (docks my_pid a b) _ w (λ v.
      docks_lem v.shm.dock_truck.is_present
        (record v.shm { dock_truck = randomize_truck_specs my_pid a b v.shm.dock_truck }) v)
  errands_lem (departs my_pid) w = behind_lock (departs my_pid) _ w (λ v. refl)
  errands_lem (shuts_down my_pid) w = behind_lock (shuts_down my_pid) _ w (λ v. refl)
  errands_lem (ends my_pid) w = behind_lock (ends my_pid) _ w (λ v. refl)
  errands_lem (loads pkg) w = behind_lock (loads pkg) _ w (λ v.
      loads_lem v.shm.dock_truck.is_present (fits pkg v.shm.dock_truck)
        (is_full (load pkg v.shm.dock_truck)) v.shm.dock_truck.id
        (record v.shm { dock_truck = load pkg v.shm.dock_truck }) v)
  errands_lem (delivers draws) w =
      behind_lock (delivers draws) _ w (λ v. delivers_lem v.shm.dock_truck.is_present draws v)
