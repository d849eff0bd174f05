-- ===== src/Belt/Threads/Invariant.antt =====
-- What holds of the belt, its semaphores and the places of the processes at every moment.
use so_magazyn_firmy_spedycy.Base.{Option, none, some, ℕ, ◌+◌, ◌%◌, ◌<◌, ◌≡◌, [], length, sum_below}
use so_magazyn_firmy_spedycy.Shared.{SharedState}
use so_magazyn_firmy_spedycy.Manager.{World}
use so_magazyn_firmy_spedycy.Belt.Threads.{
  SameBelt, Place, has_slot, in_push, saw_push, saw_pop, placed, found_full, pushed, pushed_back,
  has_package, in_pop, took, found_empty, popped, popped_none, on_duty, has_read, relieved, Threads,
}

-- holds the belt mutex
abbrev pub locked : {W : Type 0} → Place W → ℕ
locked (in_push p) = 1
locked (saw_push p seen) = 1
locked (placed p) = 1
locked (found_full p) = 1
locked in_pop = 1
locked (saw_pop seen) = 1
locked (took p) = 1
locked found_empty = 1
locked (on_duty duty) = 1
locked (has_read duty seen) = 1
locked (relieved duty) = 1
locked _ = 0

-- holds a slot that is neither free nor counted as an item
abbrev pub holds_slot : {W : Type 0} → Place W → ℕ
holds_slot (has_slot p) = 1
holds_slot (in_push p) = 1
holds_slot (saw_push p seen) = 1
holds_slot (took p) = 1
holds_slot (popped p) = 1
holds_slot _ = 0

-- holds an item that is counted and that no `pop` may claim
abbrev pub holds_item : {W : Type 0} → Place W → ℕ
holds_item (placed p) = 1
holds_item (pushed p) = 1
holds_item has_package = 1
holds_item in_pop = 1
holds_item (saw_pop seen) = 1
holds_item _ = 0

-- not behind one of the two tests for a broken belt
abbrev pub IsRegular : {W : Type 0} → Place W → Type 0
IsRegular (found_full p) = ⊥
IsRegular (pushed_back p) = ⊥
IsRegular found_empty = ⊥
IsRegular popped_none = ⊥
IsRegular _ = Unit {0}

-- what a process has read of the shared memory behind its lock, and has not used yet
abbrev pub seen_by : {W : Type 0} → Place W → Option (SharedState W)
seen_by (has_read duty seen) = some seen
seen_by (saw_push pkg seen) = some seen
seen_by (saw_pop seen) = some seen
seen_by _ = none

-- What it has read is what is there.
abbrev pub IsFresh : {W : Type 0} → Place W → World W → Type 0
IsFresh p w = elim (seen_by p) [ some seen ↦ SameBelt seen w.shm | none ↦ Unit {0} ]

-- The world agrees with `m` processes in the mutex, `e` that hold a slot and `f` that hold an item.
pub record Agrees {W : Type 0} (m e f : ℕ) (w : World W) : Type 0 where
  pub quiet : w.faults ≡ []
  pub size : length w.shm.belt ≡ 10
  pub head_in : w.shm.head < 10
  pub tail_at : w.shm.tail ≡ (w.shm.head + w.shm.current_items_count) % 10
  pub mutex : w.sem.mutex_belt + m ≡ 1
  pub slots : w.sem.empty_slots + w.shm.current_items_count + e ≡ 10
  pub items : w.sem.full_slots + f ≡ w.shm.current_items_count

pub record Inv {W : Type 0} (n : ℕ) (s : Threads W) : Type 0 where
  pub agrees :
      Agrees
        (sum_below locked n s.at)
        (sum_below holds_slot n s.at)
        (sum_below holds_item n s.at)
        s.world
  pub regular : (i : ℕ) → IsRegular (s.at i)
  pub fresh : (i : ℕ) → i < n → IsFresh (s.at i) s.world
