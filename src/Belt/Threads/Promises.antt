-- ===== src/Belt/Threads/Promises.antt =====
-- What any number of processes on one belt can rely on, in whatever order they run.
use so_magazyn_firmy_spedycy.Base.{
  ℕ, ◌+◌, ◌-◌, ◌≤◌, ◌<◌, ◌≡◌, ◌≢◌, inl, inr, refl, subst, arith, [], some, none, Double,
  le-sum_below, pair-le-sum_below, find_below, update, ℕ_discrete, dec_lt, leb, Bool-cases,
}
use so_magazyn_firmy_spedycy.Shared.{SharedState, Package, zero_package}
use so_magazyn_firmy_spedycy.Manager.{World, returned, wait_for_empty_slot, wait_for_package}
use so_magazyn_firmy_spedycy.Belt.Class.{place, take_off, numbered, next_package}
use so_magazyn_firmy_spedycy.Belt.Queue
use so_magazyn_firmy_spedycy.Belt.Refine.{view}
use so_magazyn_firmy_spedycy.Belt.Slots.{length-slots, slots-push, slots-pop}
use so_magazyn_firmy_spedycy.Belt.Threads.{
  Place, outside, has_slot, in_push, saw_push, saw_pop, placed, found_full, pushed, pushed_back,
  has_package, in_pop, took, found_empty, popped, popped_none, about_to, on_duty, has_read,
  relieved, perform, advance, Threads, Move, calls_push, calls_pop, calls, goes_on, elsewhere,
  with_belt, SameBelt, Reach,
}
use so_magazyn_firmy_spedycy.Belt.Threads.Duties.{perform-KeepsBelt}
use so_magazyn_firmy_spedycy.Belt.Threads.Invariant.{
  locked, holds_slot, holds_item, IsRegular, IsFresh, seen_by, Agrees,
}
use so_magazyn_firmy_spedycy.Belt.Threads.Keeping.{Reach-Inv}

-- What one move is to the queue: nothing; or the queue's `push` of the package with which a process stands in
-- `push`, which then holds the package as the queue numbers it; or the queue's `pop`, after which a process
-- in `pop` holds the package that the queue gives.
pub data Effect {W : Type 0} ⦃d : Double W⦄ (s t : Threads W) : Type 0 where
  hidden : view t.world ≡ view s.world → Effect s t
  arrival :
      (i : ℕ) (pkg : Package W) {seen : SharedState W} {p : Package W}
      → s.at i ≡ saw_push pkg seen
      → Queue.push pkg (view s.world) ≡ returned (p, view t.world)
      → t.at i ≡ placed p
      → Effect s t
  removal :
      (i : ℕ) {seen : SharedState W} {p : Package W}
      → s.at i ≡ saw_pop seen
      → Queue.pop (view s.world) ≡ returned (p, view t.world)
      → t.at i ≡ took p
      → Effect s t

module _ {W : Type 0} ⦃d : Double W⦄ where
  abbrev pub Enabled : Place W → World W → Type 0
  Enabled p w = (p' : Place W) × (w' : World W) × (advance p w ≡ returned (p', w'))

  abbrev unlocked : World W → World W
  unlocked w = record w { sem = record w.sem { mutex_belt = w.sem.mutex_belt + 1 } }

  abbrev relocked : World W → World W
  relocked w = record w { sem = record w.sem { mutex_belt = w.sem.mutex_belt - 1 } }

  inside-Enabled : (p : Place W) (w : World W) → w.faults ≡ [] → 0 < locked p → Enabled p w
  unfolding advance
  inside-Enabled (in_push pkg) w q l = (saw_push pkg w.shm, w, ground arith)
  inside-Enabled (saw_push pkg seen) w q l = elim (Bool-cases (leb 10 seen.current_items_count)) [
    | inl full ↦ (found_full pkg, w, ground arith)
    | inr room ↦ (
      placed (numbered pkg seen),
      record w { shm = with_belt (place pkg seen) w.shm },
      ground arith,
    )
  ]
  inside-Enabled (placed pkg) w q l = (pushed pkg, unlocked w, ground arith)
  inside-Enabled (found_full pkg) w q l = (pushed_back pkg, unlocked w, ground arith)
  inside-Enabled in_pop w q l = (saw_pop w.shm, w, ground arith)
  inside-Enabled (saw_pop seen) w q l = elim (Bool-cases (leb seen.current_items_count 0)) [
    | inl none_left ↦ (found_empty, w, ground arith)
    | inr some_left ↦
        (took (next_package seen), record w { shm = with_belt (take_off seen) w.shm }, ground arith)
  ]
  inside-Enabled (took pkg) w q l = (popped pkg, unlocked w, ground arith)
  inside-Enabled found_empty w q l = (popped_none, unlocked w, ground arith)
  inside-Enabled (on_duty duty) w q l = (has_read duty w.shm, w, ground arith)
  inside-Enabled (has_read duty seen) w q l =
      (relieved duty, record w { shm = with_belt (perform duty seen) w.shm }, ground arith)
  inside-Enabled (relieved duty) w q l = (outside, unlocked w, ground arith)
  inside-Enabled (about_to duty) w q l = absurd (omega arith)
  inside-Enabled outside w q l = absurd (omega arith)
  inside-Enabled (has_slot pkg) w q l = absurd (omega arith)
  inside-Enabled (pushed pkg) w q l = absurd (omega arith)
  inside-Enabled (pushed_back pkg) w q l = absurd (omega arith)
  inside-Enabled has_package w q l = absurd (omega arith)
  inside-Enabled (popped pkg) w q l = absurd (omega arith)
  inside-Enabled popped_none w q l = absurd (omega arith)

  free-Enabled : (p : Place W) (w : World W) → w.faults ≡ [] → 0 < w.sem.mutex_belt → Enabled p w
  unfolding advance
  free-Enabled outside w q free = (outside, w, refl)
  free-Enabled (has_slot pkg) w q free = (in_push pkg, relocked w, ground arith)
  free-Enabled has_package w q free = (in_pop, relocked w, ground arith)
  free-Enabled (pushed pkg) w q free =
      (outside, record w { sem = record w.sem { full_slots = w.sem.full_slots + 1 } }, ground arith)
  free-Enabled (pushed_back pkg) w q free = (
    outside,
    record w { sem = record w.sem { empty_slots = w.sem.empty_slots + 1 } },
    ground arith,
  )
  free-Enabled (popped pkg) w q free = (
    outside,
    record w { sem = record w.sem { empty_slots = w.sem.empty_slots + 1 } },
    ground arith,
  )
  free-Enabled popped_none w q free =
      (outside, record w { sem = record w.sem { full_slots = w.sem.full_slots + 1 } }, ground arith)
  free-Enabled (in_push pkg) w q free = inside-Enabled (in_push pkg) w q (omega arith)
  free-Enabled (placed pkg) w q free = inside-Enabled (placed pkg) w q (omega arith)
  free-Enabled (found_full pkg) w q free = inside-Enabled (found_full pkg) w q (omega arith)
  free-Enabled (saw_push pkg seen) w q free = inside-Enabled (saw_push pkg seen) w q (omega arith)
  free-Enabled (saw_pop seen) w q free = inside-Enabled (saw_pop seen) w q (omega arith)
  free-Enabled in_pop w q free = inside-Enabled in_pop w q (omega arith)
  free-Enabled (took pkg) w q free = inside-Enabled (took pkg) w q (omega arith)
  free-Enabled found_empty w q free = inside-Enabled found_empty w q (omega arith)
  free-Enabled (about_to duty) w q free = (on_duty duty, relocked w, ground arith)
  free-Enabled (on_duty duty) w q free = inside-Enabled (on_duty duty) w q (omega arith)
  free-Enabled (has_read duty seen) w q free = inside-Enabled (has_read duty seen) w q (omega arith)
  free-Enabled (relieved duty) w q free = inside-Enabled (relieved duty) w q (omega arith)

  push_wait-hidden :
      (w : World W) {w' : World W} → wait_for_empty_slot w ≡ returned (tt, w') → view w' ≡ view w
  unfolding wait_for_empty_slot
  push_wait-hidden w e = ground arith

  pop_wait-hidden :
      (w : World W) {w' : World W} → wait_for_package w ≡ returned (tt, w') → view w' ≡ view w
  unfolding wait_for_package
  pop_wait-hidden w e = ground arith

  advance-Effect :
      {m e f : ℕ} {s : Threads W} (i : ℕ) (p : Place W) {p' : Place W} {w' : World W}
      → s.at i ≡ p
      → Agrees m e f s.world
      → IsFresh p s.world
      → holds_slot p ≤ e
      → holds_item p ≤ f
      → advance p s.world ≡ returned (p', w')
      → Effect s (record { world = w'; at = update s.at i p' })
  unfolding advance Queue.push Queue.pop
  advance-Effect {s} i (saw_push pkg seen) at a fresh hs hi h =
      arrival i pkg {p = numbered pkg seen} at
        (ground (
          arith,
          fresh,
          length-slots seen.belt seen.head seen.current_items_count,
          slots-push seen.belt (numbered pkg seen) seen.head seen.current_items_count,
        ))
        (ground (arith, fresh, h))
  advance-Effect {s} i (saw_pop seen) at a fresh hs hi h =
      removal i {p = next_package seen} at
        (ground (arith, fresh, slots-pop seen.belt zero_package seen.head seen.current_items_count))
        (ground (arith, fresh, h))
  advance-Effect {s} i (has_read duty seen) at a fresh hs hi h =
      hidden (ground (arith, fresh, perform-KeepsBelt duty seen))
  advance-Effect {s} i p at a fresh hs hi h = hidden (ground arith)

module _ {W : Type 0} ⦃d : Double W⦄ {n : ℕ} {s : Threads W} (r : Reach n s) where
  -- In every reachable state at most one process is between its lock and its unlock, and then the
  -- mutex is taken.
  pub mutual_exclusion :
      (i j : ℕ)
      → i < n
      → j < n
      → locked (s.at i) ≡ 1
      → locked (s.at j) ≡ 1
      → (i ≡ j) × (s.world.sem.mutex_belt ≡ 0)
  mutual_exclusion i j hi hj li lj = elim (ℕ_discrete i j) [
    | yes same ↦ (same, omega (arith, (Reach-Inv r).agrees.mutex, le-sum_below locked n s.at i hi))
    | no other ↦
        absurd (
          omega
            (arith, (Reach-Inv r).agrees.mutex, pair-le-sum_below locked n s.at i j other hi hj))
  ]

  -- In every reachable state no process stands behind a test that found the belt full in `push`, or empty
  -- in `pop`: the branches behind these two tests never run.
  pub tests_pass : (i : ℕ) → IsRegular (s.at i)
  tests_pass i = (Reach-Inv r).regular i

  -- In every reachable state a process that has read the shared memory behind its lock, and has not made its
  -- assignments, has read what is there, in all fields that the belt mutex guards: no update of another
  -- process comes between and is lost.
  pub no_lost_update :
      (i : ℕ) (seen : SharedState W)
      → i < n
      → seen_by (s.at i) ≡ some seen
      → SameBelt seen s.world.shm
  no_lost_update i seen h at =
      subst (λ o. elim o [ some seen ↦ SameBelt seen s.world.shm | none ↦ Unit {0} ]) at
        ((Reach-Inv r).fresh i h)

  -- In every reachable state in which some process is in one of these methods, one of those that are can go
  -- on: the processes never wait for one another in a circle.
  pub never_stuck :
      (i : ℕ)
      → i < n
      → s.at i ≢ outside
      → (j : ℕ) × (j < n) × (s.at j ≢ outside) × Enabled (s.at j) s.world
  never_stuck i h busy = elim (dec_lt 0 s.world.sem.mutex_belt) [
    | yes free ↦ (i, h, busy, free-Enabled (s.at i) s.world (Reach-Inv r).agrees.quiet free)
    | no taken ↦
        let (j, hj, holder) =
          find_below locked n s.at (omega (arith, (Reach-Inv r).agrees.mutex)) in
        (
          j,
          hj,
          (λ out. absurd (ground arith)),
          inside-Enabled (s.at j) s.world (Reach-Inv r).agrees.quiet holder,
        )
  ]

  -- Every move from a reachable state leaves the abstract queue as it is, or is one `push` of it, of the package
  -- with which the process stands in `push`, or one `pop` of it, and then the process goes on with the
  -- package that the queue numbers or gives.
  pub Move_refines : {t : Threads W} → Move n s t → Effect s t
  Move_refines (calls_push i pkg {w} h out e) = hidden (push_wait-hidden s.world e)
  Move_refines (calls_pop i {w} h out e) = hidden (pop_wait-hidden s.world e)
  Move_refines (calls i duty h out) = hidden refl
  Move_refines (elsewhere a) = hidden (ground (arith, a.memory))
  Move_refines (goes_on i {p} {w} h e) =
      advance-Effect i (s.at i) refl (Reach-Inv r).agrees ((Reach-Inv r).fresh i h)
        (le-sum_below holds_slot n s.at i h) (le-sum_below holds_item n s.at i h) e
