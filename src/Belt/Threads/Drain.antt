-- ===== src/Belt/Threads/Drain.antt =====
-- The processes on one belt when no others come in: how long they can stay in the methods that take its mutex.
use so_magazyn_firmy_spedycy.Base.{ℕ, ◌-◌, ◌*◌, ◌≤◌, ◌<◌, ◌≡◌, refl, ◌⊎◌, arith, Double}
use so_magazyn_firmy_spedycy.Manager.{World, returned}
use so_magazyn_firmy_spedycy.Manager.Runs.{Run, stays, goes, beside, GoesOn, drains}
use so_magazyn_firmy_spedycy.Belt.Threads.{
  Place, outside, has_slot, in_push, saw_push, placed, found_full, pushed, pushed_back, has_package,
  in_pop, saw_pop, took, found_empty, popped, popped_none, about_to, on_duty, has_read, relieved,
  Threads, advance, goes_on, elsewhere, Elsewhere, Reach, next,
}
use so_magazyn_firmy_spedycy.Belt.Threads.Promises.{never_stuck}

-- the pieces that a process has before it
abbrev left : {W : Type 0} → Place W → ℕ
left outside = 0
left (has_slot pkg) = 5
left (in_push pkg) = 4
left (saw_push pkg seen) = 3
left (placed pkg) = 2
left (found_full pkg) = 2
left (pushed pkg) = 1
left (pushed_back pkg) = 1
left has_package = 5
left in_pop = 4
left (saw_pop seen) = 3
left (took pkg) = 2
left found_empty = 2
left (popped pkg) = 1
left popped_none = 1
left (about_to duty) = 4
left (on_duty duty) = 3
left (has_read duty seen) = 2
left (relieved duty) = 1

module _ {W : Type 0} ⦃d : Double W⦄ where
  advance-left :
      (p : Place W) (w : World W) (q : Place W) (v : World W)
      → advance p w ≡ returned (q, v)
      → left q ≤ left p - 1
  unfolding advance
  advance-left p w q v e = ground arith

  none_left : (p : Place W) → left p ≡ 0 → p ≡ outside
  none_left outside e = refl
  none_left p e = absurd (omega arith)

  left-bound : (p : Place W) → left p ≤ 5
  left-bound p = ground arith

  Run-Reach :
      {n : ℕ} {s : Threads W} {k : ℕ} {v : World W} {f : ℕ → Place W}
      → Reach n s
      → Run advance outside Elsewhere n s.world s.at k v f
      → Reach n (record { world = v; at = f })
  Run-Reach r stays = r
  Run-Reach r (beside run a) = next (Run-Reach r run) (elsewhere a)
  Run-Reach r (goes i run h busy e) = next (Run-Reach r run) (goes_on i h e)

  -- From every reachable state, with no failing call: the processes that are in these methods, in `push` and
  -- `pop` past the wait with which they begin, go through at most five pieces each, in whatever order they
  -- run, while no others come past their wait and whatever goes on elsewhere; and as long as one is in
  -- there, one of them can go on. So all of those come out again.
  pub belt_drains :
      {n : ℕ} {s : Threads W} {k : ℕ} {v : World W} {f : ℕ → Place W}
      → Reach n s
      → Run advance outside Elsewhere n s.world s.at k v f
      → (k ≤ 5 * n) × (((i : ℕ) → i < n → f i ≡ outside) ⊎ GoesOn advance outside n v f)
  belt_drains {s} r run =
      drains advance outside Elsewhere left refl none_left advance-left 5 (λ i. left-bound (s.at i))
        (never_stuck (Run-Reach r run)) run
