-- ===== src/Dock/Drain.antt =====
-- The processes round the dock when no others come in: how long they can stay in the methods that take its
-- mutex.
use so_magazyn_firmy_spedycy.Base.{
  ℕ, ◌+◌, ◌-◌, ◌*◌, ◌≤◌, ◌<◌, ◌≡◌, refl, ◌⊎◌, arith, [], ◌∷◌, Double, length,
}
use so_magazyn_firmy_spedycy.Manager.{World, returned}
use so_magazyn_firmy_spedycy.Manager.Runs.{Run, stays, goes, beside, GoesOn, drains}
use so_magazyn_firmy_spedycy.Dock.{
  Place, outside, about_to, in_dock, has_read, sends, Threads, advance, calls, goes_on, elsewhere,
  Elsewhere, Reach, start, next,
}
use so_magazyn_firmy_spedycy.Dock.Promises.{length-targets, dock_never_stuck}

-- the pieces that a process has before it at most
abbrev left : {W : Type 0} → Place W → ℕ
left outside = 0
left (about_to errand) = 5
left (in_dock errand) = 4
left (has_read errand seen) = 3
left (sends pids) = 1 + length pids

module _ {W : Type 0} ⦃d : Double W⦄ where
  advance-left :
      (p : Place W) (w : World W) (q : Place W) (v : World W)
      → advance p w ≡ returned (q, v)
      → left q ≤ left p - 1
  unfolding advance
  advance-left (has_read errand seen) w q v e = ground (arith, length-targets errand seen)
  advance-left (sends []) w q v e = ground arith
  advance-left (sends (pid ∷ pids)) w q v e = ground arith
  advance-left p w q v e = ground arith

  none_left : (p : Place W) → left p ≡ 0 → p ≡ outside
  none_left outside e = refl
  none_left p e = absurd (omega arith)

  Reach-left : {n : ℕ} {s : Threads W} → Reach n s → (i : ℕ) → left (s.at i) ≤ 5
  Reach-left start i = omega arith
  Reach-left (next r (calls j errand h out ok)) i = ground (arith, Reach-left r i)
  Reach-left (next {s} r (goes_on j {p} {w} h e)) i =
      ground (arith, Reach-left r i, Reach-left r j, advance-left (s.at j) s.world p w e)
  Reach-left (next r (elsewhere a)) i = Reach-left r i

  Run-Reach :
      {n : ℕ} {s : Threads W} {k : ℕ} {v : World W} {f : ℕ → Place W}
      → Reach n s
      → Run advance outside Elsewhere n s.world s.at k v f
      → Reach n (record { world = v; at = f })
  Run-Reach r stays = r
  Run-Reach r (beside run a) = next (Run-Reach r run) (elsewhere a)
  Run-Reach r (goes i run h busy e) = next (Run-Reach r run) (goes_on i h e)

  -- From every reachable state, with no failing call and as long as the message queue has room: the processes in
  -- these methods go through at most five pieces each, in whatever order they run, while no others
  -- come in and whatever goes on elsewhere; and as long as one is in there, one of them can go on. So all
  -- of them come out again.
  pub dock_drains :
      {n : ℕ} {s : Threads W} {k : ℕ} {v : World W} {f : ℕ → Place W}
      → Reach n s
      → Run advance outside Elsewhere n s.world s.at k v f
      → (k ≤ 5 * n) × (((i : ℕ) → i < n → f i ≡ outside) ⊎ GoesOn advance outside n v f)
  dock_drains r run =
      drains advance outside Elsewhere left refl none_left advance-left 5 (Reach-left r)
        (dock_never_stuck (Run-Reach r run)) run
