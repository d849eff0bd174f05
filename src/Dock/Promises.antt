-- ===== src/Dock/Promises.antt =====
-- What the processes round the dock can rely on, in whatever order they run.
use so_magazyn_firmy_spedycy.Base.{
  length, ◌≤◌, ℕ, ◌+◌, ◌-◌, ◌<◌, ◌≡◌, ◌≢◌, refl, subst, arith, some, none, [], ◌∷◌, ◌++◌, true,
  Double, ◌<=◌, update, le-sum_below, pair-le-sum_below, find_below, ℕ_discrete, dec_lt,
}
use so_magazyn_firmy_spedycy.Shared.{SharedState, signal_departure, signal_code}
use so_magazyn_firmy_spedycy.Manager.{World, returned}
use so_magazyn_firmy_spedycy.Truck.Class.{randomize_truck_specs}
use so_magazyn_firmy_spedycy.Dock.{
  Errand, docks, departs, shuts_down, ends, loads, delivers, Place, outside, about_to, in_dock,
  has_read, sends, Threads, with_dock, perform, targets, advance, Move, calls, goes_on, elsewhere,
  Reach,
}
use so_magazyn_firmy_spedycy.Dock.Invariant.{locked, seen_by, SameDock, IsFresh, Reach-Inv}

module _ {W : Type 0} ⦃d : Double W⦄ where
  -- What one move does to the dock: nothing, or all that the errand of the process does to the dock as it is,
  -- after which the process goes on to send the messages that the errand sends for that dock.
  pub data Effect (s t : Threads W) : Type 0 where
    hidden : SameDock s.world.shm t.world.shm → Effect s t
    acts :
        (i : ℕ) (errand : Errand W) {seen : SharedState W}
        → s.at i ≡ has_read errand seen
        → SameDock (perform errand s.world.shm) t.world.shm
        → t.at i ≡ sends (targets errand s.world.shm)
        → Effect s t

  perform-SameDock :
      (errand : Errand W) (s t : SharedState W)
      → SameDock s t
      → SameDock (perform errand t) (perform errand s)
  unfolding perform randomize_truck_specs
  perform-SameDock (docks my_pid a b) s t same = ground arith
  perform-SameDock (departs my_pid) s t same = ground arith
  perform-SameDock (shuts_down my_pid) s t same = ground arith
  perform-SameDock (ends my_pid) s t same = ground arith
  perform-SameDock (loads pkg) s t same = ground arith
  perform-SameDock (delivers draws) s t same = ground arith

  targets-SameDock :
      (errand : Errand W) (s t : SharedState W) → SameDock s t → targets errand s ≡ targets errand t
  unfolding targets
  targets-SameDock (loads pkg) s t same = ground arith
  targets-SameDock (delivers draws) s t same = ground arith
  targets-SameDock errand s t same = refl

  pub length-targets : (errand : Errand W) (s : SharedState W) → length (targets errand s) ≤ 1
  unfolding targets
  length-targets (loads pkg) s = ground arith
  length-targets (delivers draws) s = ground arith
  length-targets errand s = omega arith

  advance-Effect :
      {s : Threads W} (i : ℕ) (p : Place W) {q : Place W} {v : World W}
      → s.at i ≡ p
      → IsFresh p s.world
      → advance p s.world ≡ returned (q, v)
      → Effect s (record { world = v; at = update s.at i q })
  unfolding advance
  advance-Effect {s} i (has_read errand seen) {q} {v} at f e =
      acts i errand at (ground (arith, perform-SameDock errand seen s.world.shm f))
        (ground (arith, targets-SameDock errand seen s.world.shm f))
  advance-Effect {s} i (sends []) at f e = hidden (ground arith)
  advance-Effect {s} i (sends (pid ∷ pids)) at f e = hidden (ground arith)
  advance-Effect {s} i p at f e = hidden (ground arith)

  abbrev pub Enabled : Place W → World W → Type 0
  Enabled p w = (q : Place W) × (v : World W) × (advance p w ≡ returned (q, v))

  inside-Enabled : (p : Place W) (w : World W) → w.faults ≡ [] → 0 < locked p → Enabled p w
  unfolding advance
  inside-Enabled outside w h l = absurd (omega arith)
  inside-Enabled (about_to errand) w h l = absurd (omega arith)
  inside-Enabled (in_dock errand) w h l = (has_read errand w.shm, w, ground arith)
  inside-Enabled (has_read errand seen) w h l = (
    sends (targets errand seen),
    record w { shm = with_dock (perform errand seen) w.shm },
    ground arith,
  )
  inside-Enabled (sends []) w h l =
      (outside, record w { sem = record w.sem { dock_mutex = w.sem.dock_mutex + 1 } }, ground arith)
  inside-Enabled (sends (pid ∷ pids)) w h l = (
    sends pids,
    record w {
      queue = w.queue ++ record { mtype = pid; command_id = signal_code signal_departure } ∷ [];
    },
    ground arith,
  )

  free-Enabled : (p : Place W) (w : World W) → w.faults ≡ [] → 0 < w.sem.dock_mutex → Enabled p w
  unfolding advance
  free-Enabled outside w h free = (outside, w, refl)
  free-Enabled (about_to errand) w h free = (
    in_dock errand,
    record w { sem = record w.sem { dock_mutex = w.sem.dock_mutex - 1 } },
    ground arith,
  )
  free-Enabled (in_dock errand) w h free = inside-Enabled (in_dock errand) w h (omega arith)
  free-Enabled (has_read errand seen) w h free =
      inside-Enabled (has_read errand seen) w h (omega arith)
  free-Enabled (sends pids) w h free = inside-Enabled (sends pids) w h (omega arith)

module _ {W : Type 0} ⦃d : Double W⦄ {n : ℕ} {s : Threads W} (r : Reach n s) where
  -- In every reachable state at most one process is between its lock and its unlock of the dock, and then
  -- the mutex is taken.
  pub dock_exclusion :
      (i j : ℕ)
      → i < n
      → j < n
      → locked (s.at i) ≡ 1
      → locked (s.at j) ≡ 1
      → (i ≡ j) × (s.world.sem.dock_mutex ≡ 0)
  dock_exclusion i j hi hj li lj = elim (ℕ_discrete i j) [
    | yes same ↦ (same, omega (arith, (Reach-Inv r).mutex, le-sum_below locked n s.at i hi))
    | no other ↦
        absurd (omega (arith, (Reach-Inv r).mutex, pair-le-sum_below locked n s.at i j other hi hj))
  ]

  -- In every reachable state, what a process has read of the dock behind its lock, and has not used yet,
  -- is what is there.
  pub dock_fresh :
      (i : ℕ) (seen : SharedState W)
      → i < n
      → seen_by (s.at i) ≡ some seen
      → SameDock seen s.world.shm
  dock_fresh i seen h at =
      subst (λ o. elim o [ some x ↦ SameDock x s.world.shm | none ↦ Unit {0} ]) at
        ((Reach-Inv r).fresh i h)

  -- In every reachable state in which some process is in one of these methods, one such process can go on.
  pub dock_never_stuck :
      (i : ℕ)
      → i < n
      → s.at i ≢ outside
      → (j : ℕ) × (j < n) × (s.at j ≢ outside) × Enabled (s.at j) s.world
  dock_never_stuck i h busy = elim (dec_lt 0 s.world.sem.dock_mutex) [
    | yes free ↦ (i, h, busy, free-Enabled (s.at i) s.world (Reach-Inv r).quiet free)
    | no taken ↦
        let (j, hj, holder) = find_below locked n s.at (omega (arith, (Reach-Inv r).mutex)) in
        (
          j,
          hj,
          (λ out. absurd (ground arith)),
          inside-Enabled (s.at j) s.world (Reach-Inv r).quiet holder,
        )
  ]

  -- Every move from a reachable state leaves the dock alone or does at once all that one errand does to the
  -- dock as it is, and then the process sends the messages of that errand: nothing that another
  -- process does between the lock and the unlock shows.
  pub Move_acts : {t : Threads W} → Move n s t → Effect s t
  Move_acts (calls i errand h out ok) = hidden (record { truck = refl; completed = refl })
  Move_acts (goes_on i {p} {w} h e) = advance-Effect i (s.at i) refl ((Reach-Inv r).fresh i h) e
  Move_acts (elsewhere a) = hidden (record { truck = a.truck; completed = a.completed })

  -- In every reachable state the truck at the dock carries no more than its two limits.
  pub within_limits :
      s.world.shm.dock_truck.is_present ≡ true
      → ((s.world.shm.dock_truck.current_weight <= s.world.shm.dock_truck.max_weight) ≡ true)
        × ((s.world.shm.dock_truck.current_volume <= s.world.shm.dock_truck.max_volume) ≡ true)
  within_limits here = let k = (Reach-Inv r).safe here in (k.weight, k.volume)
