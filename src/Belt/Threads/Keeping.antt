-- ===== src/Belt/Threads/Keeping.antt =====
-- The invariant, from one move to the next.
use so_magazyn_firmy_spedycy.Base.{
  ℕ, ◌+◌, ◌<◌, ◌≤◌, ◌≡◌, pair-le-sum_below, refl, sym, arith, Double, sum_below-const, subst,
}
use so_magazyn_firmy_spedycy.Manager.{
  World, returned, wait_for_empty_slot, wait_for_package, init_world,
}
use so_magazyn_firmy_spedycy.Belt.Threads.{
  Place, outside, has_slot, saw_push, saw_pop, has_package, about_to, has_read, advance, Threads,
  Move, calls_push, calls_pop, calls, goes_on, elsewhere, SameBelt, Reach, start, next,
  init_threads,
}
use so_magazyn_firmy_spedycy.Belt.Threads.Invariant.{locked, holds_slot, holds_item, IsFresh, Inv}
use so_magazyn_firmy_spedycy.Belt.Threads.Beside.{
  Beside, push-Beside, pop-Beside, advance-Beside, others, Inv-Beside, Beside-Inv,
}

module _ {W : Type 0} ⦃d : Double W⦄ where
  -- A process outside the mutex leaves the shared memory alone.
  advance-memory :
      (p : Place W) (w : World W) {p' : Place W} {w' : World W}
      → locked p ≡ 0
      → advance p w ≡ returned (p', w')
      → SameBelt w.shm w'.shm
  unfolding advance
  advance-memory p w out h = ground arith

  stays-IsFresh :
      (q : Place W) (w w' : World W) → SameBelt w.shm w'.shm → IsFresh q w → IsFresh q w'
  stays-IsFresh (has_read duty seen) w w' same f = ground arith
  stays-IsFresh (saw_push pkg seen) w w' same f = ground arith
  stays-IsFresh (saw_pop seen) w w' same f = ground arith
  stays-IsFresh q w w' same f = tt

  -- what another process has read, when one goes on
  beside-IsFresh :
      (p q : Place W) (w : World W) {p' : Place W} {w' : World W}
      → locked p + locked q ≤ 1
      → advance p w ≡ returned (p', w')
      → IsFresh q w
      → IsFresh q w'
  beside-IsFresh p (has_read duty seen) w {p'} {w'} alone h f =
      stays-IsFresh (has_read duty seen) w w' (advance-memory p w (omega (arith, alone)) h) f
  beside-IsFresh p (saw_push pkg seen) w {p'} {w'} alone h f =
      stays-IsFresh (saw_push pkg seen) w w' (advance-memory p w (omega (arith, alone)) h) f
  beside-IsFresh p (saw_pop seen) w {p'} {w'} alone h f =
      stays-IsFresh (saw_pop seen) w w' (advance-memory p w (omega (arith, alone)) h) f
  beside-IsFresh p q w alone h f = tt

  push_wait-memory :
      (w : World W) {w' : World W}
      → wait_for_empty_slot w ≡ returned (tt, w')
      → SameBelt w.shm w'.shm
  unfolding wait_for_empty_slot
  push_wait-memory w e = ground arith

  pop_wait-memory :
      (w : World W) {w' : World W} → wait_for_package w ≡ returned (tt, w') → SameBelt w.shm w'.shm
  unfolding wait_for_package
  pop_wait-memory w e = ground arith

  -- a process that is outside, as one beside the others
  outside-Beside :
      {n : ℕ} {s : Threads W} (i : ℕ)
      → i < n
      → Inv n s
      → s.at i ≡ outside
      → Beside
          (others locked n s.at i)
          (others holds_slot n s.at i)
          (others holds_item n s.at i)
          outside
          s.world
  outside-Beside {n} {s} i h v out =
      subst
        (λ p.
          Beside (others locked n s.at i) (others holds_slot n s.at i) (others holds_item n s.at i)
            p s.world)
        out (Inv-Beside i h v)

  pub Move-Inv : {n : ℕ} {s t : Threads W} → Inv n s → Move n s t → Inv n t
  Move-Inv {n} {s} v (calls_push i pkg {w} h out e) =
      Beside-Inv i (has_slot pkg) w h v (push-Beside _ _ _ pkg s.world (outside-Beside i h v out) e)
        (λ j below other.
          stays-IsFresh (s.at j) s.world w (push_wait-memory s.world e) (v.fresh j below))
  Move-Inv {n} {s} v (calls_pop i {w} h out e) =
      Beside-Inv i has_package w h v (pop-Beside _ _ _ s.world (outside-Beside i h v out) e)
        (λ j below other.
          stays-IsFresh (s.at j) s.world w (pop_wait-memory s.world e) (v.fresh j below))
  Move-Inv {n} {s} v (calls i duty h out) =
      Beside-Inv i (about_to duty) s.world h v (outside-Beside i h v out)
        (λ j below other. v.fresh j below)
  Move-Inv {n} {s} v (goes_on i {p} {w} h e) =
      Beside-Inv i p w h v (advance-Beside _ _ _ (s.at i) s.world (Inv-Beside i h v) e)
        (λ j below other.
          beside-IsFresh (s.at i) (s.at j) s.world
            (omega (
              arith,
              v.agrees.mutex,
              pair-le-sum_below locked n s.at i j (λ e'. other (sym e')) h below,
            ))
            e (v.fresh j below))
  Move-Inv {n} {s} v (elsewhere {w} a) = record {
    agrees = ground (arith, v.agrees, a.memory, a.mutex, a.empty_slots, a.full_slots, a.quiet);
    regular = v.regular;
    fresh = λ j below. stays-IsFresh (s.at j) s.world w a.memory (v.fresh j below);
  }

  init-Inv : (n : ℕ) → Inv {W = W} n init_threads
  unfolding init_world
  init-Inv n = record {
    agrees = ground (
      arith,
      sum_below-const (locked {W = W}) n outside refl,
      sum_below-const (holds_slot {W = W}) n outside refl,
      sum_below-const (holds_item {W = W}) n outside refl,
    );
    regular = λ i. tt;
    fresh = λ i h. tt;
  }

  pub Reach-Inv : {n : ℕ} {s : Threads W} → Reach n s → Inv n s
  Reach-Inv {n} start = init-Inv n
  Reach-Inv (next r move) = Move-Inv (Reach-Inv r) move
