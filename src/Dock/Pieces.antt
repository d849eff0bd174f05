-- ===== src/Dock/Pieces.antt =====
-- The pieces of a method that takes the dock mutex, run one after the other.
use so_magazyn_firmy_spedycy.Base.{
  ℕ, zero, suc, ◌≡◌, refl, ap, sym, ◌∙◌, List, [], ◌∷◌, Double, length, arith, ◌≤◌,
}
use so_magazyn_firmy_spedycy.Shared.{SharedState, signal_departure}
use so_magazyn_firmy_spedycy.Manager.{
  World, returned, M, pure, ◌>>=◌, ◌>>◌, get_state, put_state, lock_dock, unlock_dock, send_signal,
  bind-cong, bind_assoc,
}
use so_magazyn_firmy_spedycy.Truck.{depart, shut_down, end_shift, try_dock}
use so_magazyn_firmy_spedycy.Dispatcher.{try_load}
use so_magazyn_firmy_spedycy.Express.{deliver_express_batch}
use so_magazyn_firmy_spedycy.Dock.Promises.{length-targets}
use so_magazyn_firmy_spedycy.Dock.{
  Errand, docks, departs, shuts_down, ends, loads, delivers, Place, outside, about_to, in_dock,
  sends, with_dock, perform, targets, advance,
}

module _ {W : Type 0} ⦃d : Double W⦄ where
  -- `n` pieces in a row
  unfoldable pub pieces : ℕ → Place W → M W (Place W)
  unfolding advance
  pieces zero p = pure p
  pieces (suc n) p = advance p >>= pieces n

  -- the method of an errand, and then out of it
  abbrev pub whole_method : Errand W → M W (Place W)
  whole_method (docks my_pid a b) = try_dock my_pid a b >>= λ _. pure outside
  whole_method (departs my_pid) = depart my_pid >>= λ _. pure outside
  whole_method (shuts_down my_pid) = shut_down my_pid >>= λ _. pure outside
  whole_method (ends my_pid) = end_shift my_pid >>= λ _. pure outside
  whole_method (loads pkg) = try_load pkg >>= λ _. pure outside
  whole_method (delivers draws) = deliver_express_batch draws >>= λ _. pure outside

  abbrev pub send_all : List ℕ → M W (Unit {0})
  send_all [] = pure tt
  send_all (pid ∷ pids) = send_signal pid signal_departure >> send_all pids

  -- An errand behind the lock: what is read, assigned and sent, and the unlock.
  abbrev section_of : Errand W → M W (Place W)
  section_of errand = get_state >>= λ shm.
      put_state (with_dock (perform errand shm) shm)
      >> (send_all (targets errand shm) >> (unlock_dock >> pure outside))

  pieces-outside : (n : ℕ) (v : World W) → pieces n outside v ≡ returned (outside, v)
  unfolding pieces
  pieces-outside zero v = refl
  pieces-outside (suc n) v = pieces-outside n v

  unlocks :
      (n : ℕ) (v : World W)
      → ((unlock_dock >> pure outside) >>= pieces n) v ≡ (unlock_dock >> pure outside) v
  unlocks n v =
      bind_assoc unlock_dock (λ _. pure outside) (pieces n) v
      ∙ bind-cong unlock_dock (λ _. pieces n outside) (λ _. pure outside) v
          (λ _ x. pieces-outside n x)

  sends_lem :
      (pids : List ℕ) (v : World W)
      → length pids ≤ 1
      → pieces 2 (sends pids) v ≡ (send_all pids >> (unlock_dock >> pure outside)) v
  unfolding pieces
  sends_lem [] v h = unlocks 1 v
  sends_lem (pid ∷ []) v h =
      bind_assoc (send_signal pid signal_departure) (λ _. pure (sends [])) (pieces 1) v
      ∙ bind-cong (send_signal pid signal_departure) (λ _. pieces 1 (sends []))
          (λ _. unlock_dock >> pure outside) v (λ _ x. unlocks 0 x)
      ∙ sym (
          bind_assoc (send_signal pid signal_departure) (λ _. pure tt)
            (λ _. unlock_dock >> pure outside) v)
  sends_lem (pid ∷ next ∷ pids) v h = absurd (omega (arith, h))

  errand_pieces :
      (errand : Errand W) (w : World W)
      → pieces 5 (about_to errand) w ≡ (lock_dock >> section_of errand) w
  unfolding pieces
  errand_pieces errand w =
      bind_assoc lock_dock (λ _. pure (in_dock errand)) (pieces 4) w
      ∙ bind-cong lock_dock (λ _. pieces 4 (in_dock errand)) (λ _. section_of errand) w
          (λ _ v.
            sends_lem (targets errand v.shm)
              (record v { shm = with_dock (perform errand v.shm) v.shm })
              (length-targets errand v.shm))

  with_dock-perform :
      (errand : Errand W) (s : SharedState W) → with_dock (perform errand s) s ≡ perform errand s
  unfolding perform
  with_dock-perform (docks my_pid a b) s = ground arith
  with_dock-perform (departs my_pid) s = ground arith
  with_dock-perform (shuts_down my_pid) s = ground arith
  with_dock-perform (ends my_pid) s = ground arith
  with_dock-perform (loads pkg) s = ground arith
  with_dock-perform (delivers draws) s = ground arith

  -- what an errand assigns, sends and unlocks, in the state that it finds
  abbrev pub finishes : SharedState W → List ℕ → M W (Place W)
  finishes s pids = put_state s >> (send_all pids >> (unlock_dock >> pure outside))

  -- A method is an errand if it does the same behind the lock.
  pub behind_lock :
      {A : Type 0} (errand : Errand W) (body : M W A) (w : World W)
      → ((v : World W)
          → (body >>= λ _. pure outside) v
            ≡ finishes (perform errand v.shm) (targets errand v.shm) v)
      → pieces 5 (about_to errand) w ≡ ((lock_dock >> body) >>= λ _. pure outside) w
  behind_lock errand body w same =
      errand_pieces errand w
      ∙ bind-cong lock_dock (λ _. section_of errand) (λ _. body >>= λ _. pure outside) w
          (λ _ v.
            ap (λ s. finishes s (targets errand v.shm) v) (with_dock-perform errand v.shm)
            ∙ sym (same v))
      ∙ sym (bind_assoc lock_dock (λ _. body) (λ _. pure outside) w)

  -- an unlock, and the result
  pub leaves :
      {A : Type 0} (x : A) (v : World W)
      → ((unlock_dock >> pure x) >>= λ _. pure {A = Place W} outside) v
        ≡ (unlock_dock >> pure outside) v
  leaves x v = bind_assoc unlock_dock (λ _. pure x) (λ _. pure outside) v
