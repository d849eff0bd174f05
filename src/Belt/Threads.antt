-- ===== src/Belt/Threads.antt =====
-- include/Belt.h and include/SessionManager.h: `push`, `pop` and the other methods that take the belt's mutex,
-- taken apart at the lock, the reading, the assignments and the unlock, and any number of processes that
-- run them, interleaved in any order with each other and with whatever leaves the belt alone. No system call
-- fails.
pub mod Pieces
pub mod Invariant
pub mod Beside
pub mod Keeping
pub mod Duties
pub mod Methods
pub mod Sessions
pub mod Promises
pub mod Drain
pub mod Ledger
use so_magazyn_firmy_spedycy.Base.{
  ℕ, Bytes, ltb, ◌<◌, ◌≡◌, List, [], Double, leb, if◌then◌else◌, update,
}
use so_magazyn_firmy_spedycy.Shared.{
  SharedState, UserRole, max_workers_per_belt, Package, zero_package, max_belt_capacity_k,
}
use so_magazyn_firmy_spedycy.Manager.{
  World, returned, M, pure, ◌>>=◌, ◌>>◌, get_state, put_state, lock_belt, unlock_belt, init_world,
  wait_for_empty_slot, signal_slot_freed, wait_for_package, signal_package_added,
}
use so_magazyn_firmy_spedycy.Belt.Class.{
  place, numbered, take_off, next_package, add_worker, remove_worker,
}
use so_magazyn_firmy_spedycy.Session.{
  enter, new_session_manager, write_user, read_user, closed, spawn_one, finish_one,
}

-- What else is done under the belt's mutex: `registerWorker`, `unregisterWorker`, and with its arguments and
-- the caller's id `login`, or with the index of the caller's session `logout`,
-- `trySpawnProcess` and `reportProcessFinished`.
pub data Duty : Type 0 where
  registering unregistering : Duty
  entering : Bytes → UserRole → ℕ → ℕ → ℕ → Duty
  closing spawning finishing : ℕ → Duty

-- Where a process stands: outside these methods, or asleep in the wait with which `push` and `pop` begin; in
-- `push`: behind the wait for a slot, behind the
-- lock, with what it has read of the shared memory, behind the assignments or the test that finds the belt
-- full, behind the unlock; likewise in `pop`; and with a duty before the lock, behind the lock, with what
-- it has read, behind the assignments.
pub data Place (W : Type 0) : Type 0 where
  outside : Place W
  has_slot in_push placed found_full pushed pushed_back : Package W → Place W
  has_package in_pop : Place W
  took : Package W → Place W
  found_empty : Place W
  popped : Package W → Place W
  popped_none : Place W
  about_to on_duty relieved : Duty → Place W
  has_read : Duty → SharedState W → Place W
  saw_push : Package W → SharedState W → Place W
  saw_pop : SharedState W → Place W

pub record Threads (W : Type 0) : Type 0 where
  pub world : World W
  pub at : ℕ → Place W

module _ {W : Type 0} where
  -- the fields that the belt mutex guards, taken from one state over to another
  abbrev pub with_belt : SharedState W → SharedState W → SharedState W
  with_belt new shm = record shm {
    belt = new.belt;
    head = new.head;
    tail = new.tail;
    current_workers_count = new.current_workers_count;
    current_items_count = new.current_items_count;
    current_belt_weight = new.current_belt_weight;
    total_packages_created = new.total_packages_created;
    users = new.users;
  }

  -- These fields are the same in two states.
  pub record SameBelt (s t : SharedState W) : Type 0 where
    pub belt : t.belt ≡ s.belt
    pub head : t.head ≡ s.head
    pub tail : t.tail ≡ s.tail
    pub staff : t.current_workers_count ≡ s.current_workers_count
    pub count : t.current_items_count ≡ s.current_items_count
    pub load : t.current_belt_weight ≡ s.current_belt_weight
    pub created : t.total_packages_created ≡ s.total_packages_created
    pub sessions : t.users ≡ s.users

  -- The belt, the sessions and their semaphores are left alone.
  pub record Elsewhere (w v : World W) : Type 0 where
    pub memory : SameBelt w.shm v.shm
    pub mutex : v.sem.mutex_belt ≡ w.sem.mutex_belt
    pub empty_slots : v.sem.empty_slots ≡ w.sem.empty_slots
    pub full_slots : v.sem.full_slots ≡ w.sem.full_slots
    pub quiet : v.faults ≡ []

  -- the assignments of a duty between its lock and its unlock
  unfoldable pub perform : Duty → SharedState W → SharedState W
  perform registering shm =
      if ltb shm.current_workers_count max_workers_per_belt then add_worker shm else shm
  perform unregistering shm = if ltb 0 shm.current_workers_count then remove_worker shm else shm
  perform (entering name role org_id max_procs pid) shm =
      (enter name role org_id max_procs pid new_session_manager shm).2
  perform (closing i) shm = write_user i (closed (read_user i shm)) shm
  perform (spawning i) shm = (spawn_one i shm).1
  perform (finishing i) shm = finish_one i shm

module _ {W : Type 0} ⦃d : Double W⦄ where
  -- from one place to the next
  unfoldable pub advance : Place W → M W (Place W)
  unfolding lock_belt unlock_belt signal_slot_freed signal_package_added place take_off perform
  advance outside = pure outside
  advance (has_slot pkg) = lock_belt >> pure (in_push pkg)
  advance (in_push pkg) = get_state >>= λ shm. pure (saw_push pkg shm)
  advance (saw_push pkg seen) =
      if leb max_belt_capacity_k seen.current_items_count
      then pure (found_full pkg)
      else get_state >>= λ shm.
          put_state (with_belt (place pkg seen) shm) >> pure (placed (numbered pkg seen))
  advance (placed pkg) = unlock_belt >> pure (pushed pkg)
  advance (found_full pkg) = unlock_belt >> pure (pushed_back pkg)
  advance (pushed pkg) = signal_package_added >> pure outside
  advance (pushed_back pkg) = signal_slot_freed >> pure outside
  advance has_package = lock_belt >> pure in_pop
  advance in_pop = get_state >>= λ shm. pure (saw_pop shm)
  advance (saw_pop seen) =
      if leb seen.current_items_count 0
      then pure found_empty
      else get_state >>= λ shm.
          put_state (with_belt (take_off seen) shm) >> pure (took (next_package seen))
  advance (took pkg) = unlock_belt >> pure (popped pkg)
  advance found_empty = unlock_belt >> pure popped_none
  advance (popped pkg) = signal_slot_freed >> pure outside
  advance popped_none = signal_package_added >> pure outside
  advance (about_to duty) = lock_belt >> pure (on_duty duty)
  advance (on_duty duty) = get_state >>= λ shm. pure (has_read duty shm)
  advance (has_read duty seen) =
      get_state >>= λ shm. put_state (with_belt (perform duty seen) shm) >> pure (relieved duty)
  advance (relieved duty) = unlock_belt >> pure outside

  -- Processes below `n` call these methods when they like, and meanwhile anything else goes on.
  pub data Move (n : ℕ) (s : Threads W) : Threads W → Type 0 where
    calls_push :
        (i : ℕ) (pkg : Package W) {w : World W}
        → i < n
        → s.at i ≡ outside
        → wait_for_empty_slot s.world ≡ returned (tt, w)
        → Move n s (record { world = w; at = update s.at i (has_slot pkg) })
    calls_pop :
        (i : ℕ) {w : World W}
        → i < n
        → s.at i ≡ outside
        → wait_for_package s.world ≡ returned (tt, w)
        → Move n s (record { world = w; at = update s.at i has_package })
    calls :
        (i : ℕ) (duty : Duty)
        → i < n
        → s.at i ≡ outside
        → Move n s (record s { at = update s.at i (about_to duty) })
    goes_on :
        (i : ℕ) {p : Place W} {w : World W}
        → i < n
        → advance (s.at i) s.world ≡ returned (p, w)
        → Move n s (record { world = w; at = update s.at i p })
    elsewhere : {w : World W} → Elsewhere s.world w → Move n s (record s { world = w })

  abbrev pub init_threads : Threads W
  init_threads = record { world = init_world; at = λ i. outside }

  pub data Reach (n : ℕ) : Threads W → Type 0 where
    start : Reach n init_threads
    next : {s t : Threads W} → Reach n s → Move n s t → Reach n t
