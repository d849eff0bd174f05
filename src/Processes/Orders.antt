-- ===== src/Processes/Orders.antt =====
-- src/main_express.cpp with include/terminal/TerminalAction.h and include/Express.h: an order for an express
-- delivery, from the console to the truck.
use mathlib.Core.List.{append_assoc, append-nil}
use so_magazyn_firmy_spedycy.Base.{
  ℕ, ◌<◌, ◌≡◌, ap, refl, sym, ◌∙◌, arith, Bool, true, false, none, some, List, [], ◌∷◌, ◌++◌,
  Double, codes, if◌then◌else◌, if_true,
}
use so_magazyn_firmy_spedycy.Shared.{
  TruckState, UserRole, CommandMessage, signal_express_load, signal_end_work, signal_code,
}
use so_magazyn_firmy_spedycy.Manager.{
  World, returned, M, pure, ◌>>=◌, IsDockQuiet, first_for, signal_of, receive_signal_blocking,
  send_signal, bind-returned, bind_assoc,
}
use so_magazyn_firmy_spedycy.Express.{deliver_express_batch}
use so_magazyn_firmy_spedycy.Express.Class.{Draw}
use so_magazyn_firmy_spedycy.Express.Batch.{
  batch_truck, batch_signal, batch_truck-same, deliver_express_batch_lem,
}
use so_magazyn_firmy_spedycy.Express.Boarding.{Boards, left_over, batch_truck-Boards}
use so_magazyn_firmy_spedycy.Terminal.{
  vip_request_sent, find_process_by_role, is_denied, handle_vip,
}
use so_magazyn_firmy_spedycy.Fleet.Stale.{first_for-append}
use so_magazyn_firmy_spedycy.Processes.Mains.{Round, on_signal, express_loop}

abbrev order_for : ℕ → CommandMessage
order_for pid = record { mtype = pid; command_id = signal_code signal_express_load }

abbrev end_for : ℕ → CommandMessage
end_for pid = record { mtype = pid; command_id = signal_code signal_end_work }

own_first :
    (m : CommandMessage) (rest : List CommandMessage)
    → first_for m.mtype (m ∷ rest) ≡ some (m, rest)
unfolding first_for
own_first m rest = ground arith

module _ {W : Type 0} ⦃d : Double W⦄ where
  -- a round in which nobody else does anything
  abbrev pub undisturbed : List (Draw W) → Round W × List (Draw W)
  undisturbed draws = (record { stop_requested = false; others = λ w. w }, draws)

  abbrev delivered : List (Draw W) → List CommandMessage → World W → World W
  delivered draws ms w = record w {
    shm = record w.shm { dock_truck = batch_truck draws w.shm.dock_truck };
    queue = ms ++ batch_signal draws w.shm.dock_truck;
  }

  receive-first :
      (pid : ℕ) (w : World W) (m : CommandMessage) (ms : List CommandMessage)
      → w.faults ≡ []
      → first_for pid w.queue ≡ some (m, ms)
      → receive_signal_blocking pid w ≡ returned (signal_of m.command_id, record w { queue = ms })
  unfolding receive_signal_blocking
  receive-first pid w m ms f e = ground arith

  take_order :
      (pid : ℕ) (draws : List (Draw W)) (w : World W) (m : CommandMessage)
      (ms : List CommandMessage)
      → IsDockQuiet w
      → w.shm.dock_truck.is_present ≡ true
      → first_for pid w.queue ≡ some (m, ms)
      → signal_of m.command_id ≡ signal_express_load
      → (receive_signal_blocking pid >>= on_signal draws) w ≡ returned (true, delivered draws ms w)
  unfolding on_signal
  take_order pid draws w m ms q here e order =
      bind-returned (receive_signal_blocking pid) (on_signal draws) w
        (receive-first pid w m ms q.no_faults e)
      ∙ rw order (
          bind-returned (deliver_express_batch draws) (λ _. pure true) (record w { queue = ms })
            (deliver_express_batch_lem draws (record w { queue = ms })
              (record { dock_free = q.dock_free; no_faults = q.no_faults }) here).0)

  -- An operator's or administrator's `vip`, with the dock mutex free, no failing call, a truck at the dock, the
  -- P4 worker logged in and no message waiting for it: the console reports its process, and the P4
  -- worker's next round puts the packages of the batch on the truck one by one, up to the first that would
  -- pass a limit, sends the truck SIGNAL_DEPARTURE exactly if one is left over, and changes nothing else in
  -- shared memory.
  pub vip-delivers :
      (role : UserRole) (pid : ℕ) (draws : List (Draw W)) (w : World W)
      → is_denied role ≡ false
      → IsDockQuiet w
      → w.shm.dock_truck.is_present ≡ true
      → find_process_by_role (codes "System-Express") w.shm.users ≡ some pid
      → 0 < pid
      → first_for pid w.queue ≡ none
      → (u v : World W) × (handle_vip role w ≡ returned (vip_request_sent pid ∷ [], u))
        × ((receive_signal_blocking pid >>= on_signal draws) u ≡ returned (true, v))
        × (truck : TruckState W) × (over : Bool) × Boards draws w.shm.dock_truck truck over
        × (v.shm ≡ record w.shm { dock_truck = truck })
        × (v.queue ≡ w.queue ++ left_over over w.shm.dock_truck)
  unfolding handle_vip send_signal signal_of signal_code
  vip-delivers role pid draws w may q here found pos free =
      let (over, boards, signal) = batch_truck-Boards draws w.shm.dock_truck in
      (
        ordered,
        delivered draws (w.queue ++ []) ordered,
        ground arith,
        take_order pid draws ordered (order_for pid) (w.queue ++ [])
            (record { dock_free = q.dock_free; no_faults = q.no_faults }) here
            (first_for-append pid w.queue [] (order_for pid) free refl) refl,
        batch_truck draws w.shm.dock_truck,
        over,
        boards,
        refl,
        ap (λ q. q ++ batch_signal draws w.shm.dock_truck) (append-nil w.queue)
            ∙ ap (λ ms. w.queue ++ ms) signal,
      )
    where
      ordered : World W
      ordered = record w { queue = w.queue ++ order_for pid ∷ [] }

  -- orders for the P4 worker, one for each batch, and SIGNAL_END_WORK behind them
  abbrev pub orders : ℕ → List (List (Draw W)) → List CommandMessage
  orders pid [] = end_for pid ∷ []
  orders pid (draws ∷ batches) = order_for pid ∷ orders pid batches

  abbrev pub rounds_for : List (List (Draw W)) → List (Round W × List (Draw W))
  rounds_for [] = undisturbed [] ∷ []
  rounds_for (draws ∷ batches) = undisturbed draws ∷ rounds_for batches

  abbrev pub deliver_each : List (List (Draw W)) → TruckState W → TruckState W
  deliver_each [] truck = truck
  deliver_each (draws ∷ batches) truck = deliver_each batches (batch_truck draws truck)

  abbrev goes_on : ℕ → List (Round W × List (Draw W)) → Bool → M W (Unit {0})
  goes_on pid rounds on = if on then express_loop pid rounds else pure tt

  express_round :
      (pid : ℕ) (draws : List (Draw W)) (rounds : List (Round W × List (Draw W))) (w : World W)
      → w.shm.running ≡ true
      → express_loop pid (undisturbed draws ∷ rounds) w
        ≡ ((receive_signal_blocking pid >>= on_signal draws) >>= goes_on pid rounds) w
  unfolding express_loop
  express_round pid draws rounds w up =
      if_true w.shm.running _ _ up
      ∙ sym (bind_assoc (receive_signal_blocking pid) (on_signal draws) (goes_on pid rounds) w)

  -- With the dock mutex free, no failing call, a running system and a truck at the dock: undisturbed, the
  -- P4 worker delivers a batch for each order before SIGNAL_END_WORK, in turn, and then its loop ends.
  pub express_loop-serves :
      (pid : ℕ) (batches : List (List (Draw W))) (rest : List CommandMessage) (w : World W)
      → IsDockQuiet w
      → w.shm.running ≡ true
      → w.shm.dock_truck.is_present ≡ true
      → w.queue ≡ orders pid batches ++ rest
      → (v : World W) × (express_loop pid (rounds_for batches) w ≡ returned (tt, v))
        × (v.shm ≡ record w.shm { dock_truck = deliver_each batches w.shm.dock_truck })
  unfolding signal_of signal_code on_signal
  express_loop-serves pid [] rest w q up here queued = (
    record w { queue = rest },
    express_round pid [] [] w up
        ∙ bind-returned (receive_signal_blocking pid >>= on_signal []) (goes_on pid []) w (
            bind-returned (receive_signal_blocking pid) (on_signal []) w (
              receive-first pid w (end_for pid) rest q.no_faults
                (rw queued (own_first (end_for pid) rest)))),
    refl,
  )
  express_loop-serves pid (draws ∷ batches) rest w q up here queued =
      let after = delivered draws (orders pid batches ++ rest) w in
      let (v, ran, same) =
        express_loop-serves pid batches (rest ++ batch_signal draws w.shm.dock_truck) after
          (record { dock_free = q.dock_free; no_faults = q.no_faults }) up
          ((batch_truck-same draws w.shm.dock_truck).1 ∙ here)
          (append_assoc (orders pid batches) rest (batch_signal draws w.shm.dock_truck)) in
      (
        v,
        express_round pid draws (rounds_for batches) w up
            ∙ (bind-returned (receive_signal_blocking pid >>= on_signal draws)
                  (goes_on pid (rounds_for batches)) w
                  (take_order pid draws w (order_for pid) (orders pid batches ++ rest) q here
                    (rw queued (own_first (order_for pid) (orders pid batches ++ rest))) refl)
                ∙ ran),
        same,
      )
