-- ===== src/Belt/Class.antt =====
-- include/Belt.h, `class Belt`: a circular buffer in shared memory, whatever the callbacks that its
-- constructor is given. Sleeping and logging change no state and are left out.
use so_magazyn_firmy_spedycy.Base.{
  ℕ, ◌+◌, ◌-◌, ◌/◌, ◌%◌, Bool, true, false, Double, ◌⊕◌, ◌⊖◌, get_or, set, ltb, leb, int_inc,
  if◌then◌else◌,
}
use so_magazyn_firmy_spedycy.Shared.{
  SharedState, Package, zero_package, max_belt_capacity_k, max_workers_per_belt,
}
use so_magazyn_firmy_spedycy.Manager.{M, pure, ◌>>=◌, ◌>>◌, get_state, put_state}

-- The fields of the class. `attached` says that `shm` is not the null pointer; the callbacks do to the
-- world what they do.
pub record Belt (W : Type 0) : Type 0 where
  pub attached : Bool
  pub wait_empty_fn : M W (Unit {0})
  pub signal_empty_fn : M W (Unit {0})
  pub wait_full_fn : M W (Unit {0})
  pub signal_full_fn : M W (Unit {0})
  pub lock_fn : M W (Unit {0})
  pub unlock_fn : M W (Unit {0})

module _ {W : Type 0} where
  -- `simulateWorkLoad`: the milliseconds that a worker sleeps before a push
  unfoldable pub simulate_work_load : Belt W → SharedState W → ℕ
  simulate_work_load b shm =
      if b.attached
      then (if leb shm.current_workers_count 0 then 100 else 500 / shm.current_workers_count)
      else 0

  abbrev pub add_worker : SharedState W → SharedState W
  add_worker shm = record shm { current_workers_count = int_inc shm.current_workers_count }

  abbrev pub remove_worker : SharedState W → SharedState W
  remove_worker shm = record shm { current_workers_count = shm.current_workers_count - 1 }

  unfoldable pub register_worker : Belt W → M W Bool
  register_worker b =
      if b.attached
      then (do
        b.lock_fn
        shm ← get_state
        success ←
            if ltb shm.current_workers_count max_workers_per_belt
            then (do put_state (add_worker shm); pure true)
            else pure false
        b.unlock_fn
        pure success)
      else pure false

  unfoldable pub unregister_worker : Belt W → M W (Unit {0})
  unregister_worker b =
      if b.attached
      then (do
        b.lock_fn
        shm ← get_state
        if ltb 0 shm.current_workers_count then put_state (remove_worker shm) else pure tt
        b.unlock_fn)
      else pure tt

  unfoldable pub get_count : Belt W → SharedState W → ℕ
  get_count b shm = if b.attached then shm.current_items_count else 0

  unfoldable pub get_worker_count : Belt W → SharedState W → ℕ
  get_worker_count b shm = if b.attached then shm.current_workers_count else 0

module _ {W : Type 0} ⦃d : Double W⦄ where
  -- the caller's package after `push` has numbered it
  abbrev pub numbered : Package W → SharedState W → Package W
  numbered pkg shm = record pkg { id = int_inc shm.total_packages_created }

  -- the assignments of `push` between its lock and its unlock
  unfoldable pub place : Package W → SharedState W → SharedState W
  place pkg shm = record shm {
    belt = set shm.belt shm.tail (numbered pkg shm);
    tail = (shm.tail + 1) % max_belt_capacity_k;
    current_items_count = int_inc shm.current_items_count;
    current_belt_weight = shm.current_belt_weight ⊕ pkg.weight;
    total_packages_created = int_inc shm.total_packages_created;
  }

  -- `push` returns its argument as the call leaves it.
  unfoldable pub push : Belt W → Package W → M W (Package W)
  unfolding place
  push b pkg =
      if b.attached
      then (do
        b.wait_empty_fn
        b.lock_fn
        shm ← get_state
        if leb max_belt_capacity_k shm.current_items_count
            then (do b.unlock_fn; b.signal_empty_fn; pure pkg)
            else (do
              put_state (place pkg shm)
              b.unlock_fn
              b.signal_full_fn
              pure (numbered pkg shm)))
      else pure pkg

  -- the package at the head
  abbrev pub next_package : SharedState W → Package W
  next_package shm = get_or shm.belt shm.head zero_package

  -- the assignments of `pop` between its lock and its unlock
  unfoldable pub take_off : SharedState W → SharedState W
  take_off shm = record shm {
    belt = set shm.belt shm.head zero_package;
    head = (shm.head + 1) % max_belt_capacity_k;
    current_items_count = shm.current_items_count - 1;
    current_belt_weight = shm.current_belt_weight ⊖ (next_package shm).weight;
  }

  unfoldable pub pop : Belt W → M W (Package W)
  unfolding take_off
  pop b =
      if b.attached
      then (do
        b.wait_full_fn
        b.lock_fn
        shm ← get_state
        if leb shm.current_items_count 0
            then (do b.unlock_fn; b.signal_full_fn; pure zero_package)
            else (do
              put_state (take_off shm)
              b.unlock_fn
              b.signal_empty_fn
              pure (next_package shm)))
      else pure zero_package
