-- ===== src/Belt/Threads/Sessions.antt =====
-- include/SessionManager.h and include/Belt.h: the session table and the count of workers, while processes
-- interleave.
use so_magazyn_firmy_spedycy.Base.{
  ℕ, ◌≤◌, ◌≡◌, sym, arith, subst, Double, inl, inr, Option-cases, Bytes,
}
use so_magazyn_firmy_spedycy.Shared.{SharedState}
use so_magazyn_firmy_spedycy.Manager.{
  World, returned, wait_for_empty_slot, wait_for_package, init_world,
}
use so_magazyn_firmy_spedycy.Session.{SessionManager, enter, free_slot}
use so_magazyn_firmy_spedycy.Session.Table.{IsSound, init-IsSound}
use so_magazyn_firmy_spedycy.Session.Laws.{
  enter-IsSound, spawn_one-IsSound, finish_one-IsSound, closed-IsSound,
}
use so_magazyn_firmy_spedycy.Belt.Threads.{
  Duty, registering, unregistering, entering, closing, spawning, finishing, perform, Place,
  has_read, advance, Threads, Move, calls_push, calls_pop, calls, goes_on, elsewhere, Reach, start,
  next,
}
use so_magazyn_firmy_spedycy.Belt.Threads.Invariant.{IsFresh}
use so_magazyn_firmy_spedycy.Belt.Threads.Keeping.{Reach-Inv}

module _ {W : Type 0} where
  -- The session table is sound, and the count of workers within the limit.
  pub record IsKept (s : SharedState W) : Type 0 where
    pub sessions : IsSound s.users
    pub workers : s.current_workers_count ≤ 100

  enter-workers :
      (name : Bytes) (role org_id max_procs pid : ℕ) (sm : SessionManager) (s : SharedState W)
      → (enter name role org_id max_procs pid sm s).2.current_workers_count
        ≡ s.current_workers_count
  unfolding enter
  enter-workers name role org_id max_procs pid sm s = elim (Option-cases (free_slot s.users)) [
    | inl full ↦ ground arith
    | inr (k, at) ↦ ground arith
  ]

  same-IsKept :
      {s t : SharedState W}
      → IsKept s
      → t.users ≡ s.users
      → t.current_workers_count ≡ s.current_workers_count
      → IsKept t
  same-IsKept k users count = record {
    sessions = subst IsSound (sym users) k.sessions;
    workers = omega (arith, count, k.workers);
  }

  perform-IsKept : (duty : Duty) (s : SharedState W) → IsKept s → IsKept (perform duty s)
  unfolding perform
  perform-IsKept registering s k = ground (arith, k.sessions)
  perform-IsKept unregistering s k = ground (arith, k.sessions)
  perform-IsKept (entering name role org_id max_procs pid) s k = record {
    sessions = enter-IsSound name role org_id max_procs pid _ s k.sessions;
    workers =
        subst (λ n. n ≤ 100) (sym (enter-workers name role org_id max_procs pid _ s)) k.workers;
  }
  perform-IsKept (closing i) s k = record {
    sessions = closed-IsSound i s k.sessions;
    workers = k.workers;
  }
  perform-IsKept (spawning i) s k = record {
    sessions = spawn_one-IsSound i s k.sessions;
    workers = ground (arith, k.workers);
  }
  perform-IsKept (finishing i) s k = record {
    sessions = finish_one-IsSound i s k.sessions;
    workers = ground (arith, k.workers);
  }

module _ {W : Type 0} ⦃d : Double W⦄ where
  -- Apart from the assignments of a duty, users and count are left alone.
  advance-IsKept :
      (p : Place W) (w : World W) {p' : Place W} {w' : World W}
      → IsFresh p w
      → IsKept w.shm
      → advance p w ≡ returned (p', w')
      → IsKept w'.shm
  unfolding advance
  advance-IsKept (has_read duty seen) w f k h =
      same-IsKept (perform-IsKept duty seen (same-IsKept k (sym f.sessions) (sym f.staff)))
        (ground arith) (ground arith)
  advance-IsKept p w f k h = same-IsKept k (ground arith) (ground arith)

  push_wait-IsKept :
      (w : World W) {w' : World W}
      → IsKept w.shm
      → wait_for_empty_slot w ≡ returned (tt, w')
      → IsKept w'.shm
  unfolding wait_for_empty_slot
  push_wait-IsKept w k h = same-IsKept k (ground arith) (ground arith)

  pop_wait-IsKept :
      (w : World W) {w' : World W}
      → IsKept w.shm
      → wait_for_package w ≡ returned (tt, w')
      → IsKept w'.shm
  unfolding wait_for_package
  pop_wait-IsKept w k h = same-IsKept k (ground arith) (ground arith)

  Move-IsKept :
      {n : ℕ} {s t : Threads W} → Reach n s → Move n s t → IsKept s.world.shm → IsKept t.world.shm
  Move-IsKept {n} {s} r (calls_push i pkg h out e) k = push_wait-IsKept s.world k e
  Move-IsKept {n} {s} r (calls_pop i h out e) k = pop_wait-IsKept s.world k e
  Move-IsKept {n} {s} r (calls i duty h out) k = k
  Move-IsKept {n} {s} r (goes_on i h e) k =
      advance-IsKept (s.at i) s.world ((Reach-Inv r).fresh i h) k e
  Move-IsKept {n} {s} r (elsewhere a) k = same-IsKept k a.memory.sessions a.memory.staff

  -- Any number of processes run `push`, `pop`, the registrations of workers and the methods of
  -- SessionManager, interleaved in any order at the lock, the reading, the assignments and the
  -- unlock. In every reachable state no two active sessions have the same first 31 bytes of name,
  -- none exceeds its quota, the table keeps its size, and at most 100 workers are counted.
  pub always-IsKept : {n : ℕ} {s : Threads W} → Reach n s → IsKept s.world.shm
  unfolding init_world
  always-IsKept start = record { sessions = init-IsSound; workers = omega arith }
  always-IsKept (next r move) = Move-IsKept r move (always-IsKept r)
