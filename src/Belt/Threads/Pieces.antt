-- ===== src/Belt/Threads/Pieces.antt =====
-- include/Belt.h: the pieces of `push` and `pop`, run one after the other, beside the methods.
use so_magazyn_firmy_spedycy.Base.{
  Bool, true, false, ℕ, zero, suc, ◌≡◌, refl, Double, leb, if◌then◌else◌, ◌∙◌, sym,
}
use so_magazyn_firmy_spedycy.Shared.{Package, zero_package, max_belt_capacity_k}
use so_magazyn_firmy_spedycy.Manager.{
  World, M, pure, get_state, put_state, unlock_belt, lock_belt, signal_slot_freed,
  signal_package_added, bind-cong, bind_assoc, ◌>>=◌, ◌>>◌, wait_for_empty_slot, wait_for_package,
}
use so_magazyn_firmy_spedycy.Belt.{push, pop}
use so_magazyn_firmy_spedycy.Belt.Class.{place, numbered, take_off, next_package}
use so_magazyn_firmy_spedycy.Belt.Threads.{
  Place, outside, in_push, in_pop, placed, found_full, took, found_empty, pushed, pushed_back,
  popped, popped_none, has_slot, has_package, with_belt, advance,
}

module _ {W : Type 0} ⦃d : Double W⦄ where
  -- what `push` does behind its lock
  abbrev section_of_push : Package W → M W (Package W)
  section_of_push pkg = get_state >>= λ shm.
      if leb max_belt_capacity_k shm.current_items_count
      then unlock_belt >> (signal_slot_freed >> pure pkg)
      else put_state (place pkg shm)
        >> (unlock_belt >> (signal_package_added >> pure (numbered pkg shm)))

  abbrev section_of_pop : M W (Package W)
  section_of_pop = get_state >>= λ shm.
      if leb shm.current_items_count 0
      then unlock_belt >> (signal_package_added >> pure zero_package)
      else put_state (take_off shm)
        >> (unlock_belt >> (signal_slot_freed >> pure (next_package shm)))

  -- `n` pieces in a row
  unfoldable pub pieces : ℕ → Place W → M W (Place W)
  pieces zero p = pure p
  pieces (suc n) p = advance p >>= pieces n

  -- A call, then another, then out: in pieces or in one.
  last_two :
      {A : Type 0} (m n : M W (Unit {0})) (x : A) (q : Place W) (k : Place W → M W (Place W))
      (w : World W)
      → ((v : World W) → k q v ≡ ((n >> pure outside) >>= pure) v)
      → ((m >> pure q) >>= k) w ≡ ((m >> (n >> pure x)) >>= λ _. pure outside) w
  last_two m n x q k w same =
      bind_assoc m (λ _. pure q) k w
      ∙ (bind-cong m (λ _. k q) (λ _. (n >> pure x) >>= λ _. pure outside) w
            (λ _ v.
              same v
              ∙ (bind_assoc n (λ _. pure outside) pure v
                  ∙ sym (bind_assoc n (λ _. pure x) (λ _. pure outside) v)))
          ∙ sym (bind_assoc m (λ _. n >> pure x) (λ _. pure outside) w))

  either_way :
      {A : Type 0} (b : Bool) (m m' : M W (Place W)) (n n' : M W A) (k : Place W → M W (Place W))
      (w : World W)
      → (m >>= k) w ≡ (n >>= λ _. pure outside) w
      → (m' >>= k) w ≡ (n' >>= λ _. pure outside) w
      → ((if b then m else m') >>= k) w ≡ ((if b then n else n') >>= λ _. pure outside) w
  either_way true m m' n n' k w h h' = h
  either_way false m m' n n' k w h h' = h'

  in_push_lem :
      (pkg : Package W) (w : World W)
      → pieces 4 (in_push pkg) w ≡ (section_of_push pkg >>= λ _. pure outside) w
  unfolding pieces advance place take_off
  in_push_lem pkg w =
      either_way (leb max_belt_capacity_k w.shm.current_items_count) (pure (found_full pkg))
        (get_state >>= λ shm.
          put_state (with_belt (place pkg w.shm) shm) >> pure (placed (numbered pkg w.shm)))
        (unlock_belt >> (signal_slot_freed >> pure pkg))
        (put_state (place pkg w.shm)
          >> (unlock_belt >> (signal_package_added >> pure (numbered pkg w.shm))))
        (pieces 2) w
        (last_two unlock_belt signal_slot_freed pkg (pushed_back pkg) (pieces 1) w (λ v. refl))
        (last_two unlock_belt signal_package_added (numbered pkg w.shm)
          (pushed (numbered pkg w.shm)) (pieces 1) (record w { shm = place pkg w.shm }) (λ v. refl))

  in_pop_lem : (w : World W) → pieces 4 in_pop w ≡ (section_of_pop >>= λ _. pure outside) w
  unfolding pieces advance place take_off
  in_pop_lem w =
      either_way (leb w.shm.current_items_count 0) (pure found_empty)
        (get_state >>= λ shm.
          put_state (with_belt (take_off w.shm) shm) >> pure (took (next_package w.shm)))
        (unlock_belt >> (signal_package_added >> pure zero_package))
        (put_state (take_off w.shm)
          >> (unlock_belt >> (signal_slot_freed >> pure (next_package w.shm))))
        (pieces 2) w
        (last_two unlock_belt signal_package_added zero_package popped_none (pieces 1) w
          (λ v. refl))
        (last_two unlock_belt signal_slot_freed (next_package w.shm) (popped (next_package w.shm))
          (pieces 1) (record w { shm = take_off w.shm }) (λ v. refl))

  -- A wait, the lock, and the rest.
  whole :
      {A : Type 0} (m : M W (Unit {0})) (q : Place W) (body : M W A) (k : Place W → M W (Place W))
      (w : World W)
      → ((v : World W) → k q v ≡ (body >>= λ _. pure outside) v)
      → (m >> ((lock_belt >> pure q) >>= k)) w
        ≡ ((m >> (lock_belt >> body)) >>= λ _. pure outside) w
  whole m q body k w same =
      bind-cong m (λ _. (lock_belt >> pure q) >>= k)
        (λ _. (lock_belt >> body) >>= λ _. pure outside) w
        (λ _ v.
          bind_assoc lock_belt (λ _. pure q) k v
          ∙ (bind-cong lock_belt (λ _. k q) (λ _. body >>= λ _. pure outside) v (λ _. same)
              ∙ sym (bind_assoc lock_belt (λ _. body) (λ _. pure outside) v)))
      ∙ sym (bind_assoc m (λ _. lock_belt >> body) (λ _. pure outside) w)

  -- Whatever the system calls report, the wait for a slot and then the five pieces of `push` return,
  -- sleep, exit and change the world as `push` does; so do the wait for a package and the pieces of `pop`.
  pub pieces_lem :
      (pkg : Package W) (w : World W)
      → ((wait_for_empty_slot >> pieces 5 (has_slot pkg)) w ≡ (push pkg >>= λ p. pure outside) w)
        × ((wait_for_package >> pieces 5 has_package) w ≡ (pop >>= λ p. pure outside) w)
  unfolding pieces advance push pop
  pieces_lem pkg w = (
    whole wait_for_empty_slot (in_push pkg) (section_of_push pkg) (pieces 4) w (in_push_lem pkg),
    whole wait_for_package in_pop section_of_pop (pieces 4) w in_pop_lem,
  )
