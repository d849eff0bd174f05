-- ===== src/Belt/Refine.antt =====
-- include/Belt.h and the semaphores of include/Manager.h together behave as the queue of
-- Belt/Queue.
use so_magazyn_firmy_spedycy.Base.{
  ◌+◌, ◌%◌, ◌≤◌, ◌<◌, ◌≡◌, refl, ap, ◌∙◌, List, [], ◌∷◌, arith, Double, length, length-set, int_inc,
}
use so_magazyn_firmy_spedycy.Shared.{Package, zero_package}
use so_magazyn_firmy_spedycy.Manager.{World, Outcome, returned, blocked, exited, init_world}
use so_magazyn_firmy_spedycy.Belt.{push, pop, run}
use so_magazyn_firmy_spedycy.Belt.Queue
use so_magazyn_firmy_spedycy.Belt.Queue.{View, Use, put, get}
use so_magazyn_firmy_spedycy.Belt.Slots.{slots, length-slots, slots-push, slots-pop}

module _ {W : Type 0} ⦃d : Double W⦄ where
  -- Between two operations: the indices agree with the count, the semaphores with the count, the
  -- mutex is free, and no system call is about to fail.
  pub record IsValid (w : World W) : Type 0 where
    pub size : length w.shm.belt ≡ 10
    pub head_in : w.shm.head < 10
    pub count_in : w.shm.current_items_count ≤ 10
    pub tail_at : w.shm.tail ≡ (w.shm.head + w.shm.current_items_count) % 10
    pub unlocked : w.sem.mutex_belt ≡ 1
    pub full : w.sem.full_slots ≡ w.shm.current_items_count
    pub empty : w.sem.empty_slots + w.shm.current_items_count ≡ 10
    pub quiet : w.faults ≡ []

  abbrev pub view : World W → View W
  view w = record {
    items = slots w.shm.belt w.shm.head w.shm.current_items_count;
    created = w.shm.total_packages_created;
  }

  abbrev pub observe : {A : Type 0} → Outcome (A × World W) → Outcome (A × View W)
  observe (returned (a, w)) = returned (a, view w)
  observe blocked = blocked
  observe (exited e) = exited e

  abbrev pub Keeps : {A : Type 0} → Outcome (A × World W) → Type 0
  Keeps (returned (a, w)) = IsValid w
  Keeps blocked = Unit {0}
  Keeps (exited e) = ⊥

  -- On a valid world `push` does what the queue does, to the caller and to the belt.
  pub push_refines :
      {w : World W} (pkg : Package W) → IsValid w → observe (push pkg w) ≡ Queue.push pkg (view w)
  unfolding push Queue.push
  push_refines {w} pkg v = ground (
    arith,
    length-slots belt head current_items_count,
    slots-push belt (record pkg { id = int_inc total_packages_created }) head current_items_count
        size v.head_in,
  )
    where
      open w.shm use {belt, head, current_items_count, total_packages_created}
      open v use {size}

  -- On a valid world `pop` does what the queue does: the oldest package, or a wait if there is none.
  pub pop_refines : {w : World W} → IsValid w → observe (pop w) ≡ Queue.pop (view w)
  unfolding pop Queue.pop
  pop_refines {w} v = ground (arith, slots-pop belt zero_package head current_items_count v.head_in)
    where
      open w.shm use {belt, head, current_items_count}

  pub push-IsValid : {w : World W} (pkg : Package W) → IsValid w → Keeps (push pkg w)
  unfolding push
  push-IsValid {w} pkg v = ground (
    arith,
    length-set w.shm.belt w.shm.tail (record pkg { id = int_inc w.shm.total_packages_created }),
  )

  pub pop-IsValid : {w : World W} → IsValid w → Keeps (pop {W = W} w)
  unfolding pop
  pop-IsValid {w} v = ground (arith, length-set w.shm.belt w.shm.head zero_package)

  pub init-IsValid : IsValid (init_world {W = W})
  unfolding init_world
  init-IsValid = ground arith

  abbrev RunsAs : List (Use W) → Type 0
  RunsAs uses = (w : World W) → IsValid w → observe (run uses w) ≡ Queue.run uses (view w)

  put_then :
      (o : Outcome (Package W × World W)) (uses : List (Use W))
      → RunsAs uses
      → Keeps o
      → observe
          (elim o [ returned (p, w') ↦ run uses w' | blocked ↦ blocked | exited e ↦ exited e ])
        ≡ elim (observe o) [
          | returned (p, v') ↦ Queue.run uses v'
          | blocked ↦ blocked
          | exited e ↦ exited e
        ]
  put_then (returned (p, w)) uses ih k = ih w k
  put_then blocked uses ih k = refl
  put_then (exited e) uses ih k = refl

  get_then :
      (p : Package W) (o : Outcome (List (Package W) × World W))
      → observe (elim o [
        | returned (ps, w') ↦ returned (p ∷ ps, w')
        | blocked ↦ blocked
        | exited e ↦ exited e
      ])
        ≡ Queue.and_then p (observe o)
  get_then p (returned (ps, w)) = refl
  get_then p blocked = refl
  get_then p (exited e) = refl

  get_runs :
      (o : Outcome (Package W × World W)) (uses : List (Use W))
      → RunsAs uses
      → Keeps o
      → observe (elim o [
        | returned (p, w') ↦ elim (run uses w') [
          | returned (ps, w'') ↦ returned (p ∷ ps, w'')
          | blocked ↦ blocked
          | exited e ↦ exited e
        ]
        | blocked ↦ blocked
        | exited e ↦ exited e
      ])
        ≡ elim (observe o) [
          | returned (p, v') ↦ Queue.and_then p (Queue.run uses v')
          | blocked ↦ blocked
          | exited e ↦ exited e
        ]
  get_runs (returned (p, w)) uses ih k = get_then p (run uses w) ∙ ap (Queue.and_then p) (ih w k)
  get_runs blocked uses ih k = refl
  get_runs (exited e) uses ih k = refl

  -- From a valid world, no sequence of pushes and pops tells the shared memory belt from the queue: the
  -- packages that they give, the packages that stay and the point where one has to wait are the same.
  pub run_refines :
      (uses : List (Use W)) (w : World W)
      → IsValid w
      → observe (run uses w) ≡ Queue.run uses (view w)
  unfolding run Queue.run
  run_refines [] w v = refl
  run_refines (put p ∷ uses) w v =
      rw (← push_refines p v, Queue.run, run)
        (put_then (push p w) uses (run_refines uses) (push-IsValid p v))
  run_refines (get ∷ uses) w v =
      rw (← pop_refines v, Queue.run, run)
        (get_runs (pop w) uses (run_refines uses) (pop-IsValid v))
