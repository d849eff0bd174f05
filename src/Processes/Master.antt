-- ===== src/Processes/Master.antt =====
-- src/main.cpp: the process that makes the IPC objects, starts the others and cleans up. What `fork` returns
-- is an argument: for the i-th call the child's id, or `none` for a negative number.
use mathlib.Core.List.{append-nil, append_assoc}
use so_magazyn_firmy_spedycy.Base.{
  ℕ, zero, suc, ◌+◌, ◌<◌, ◌==◌, length, map, ◌≡◌, refl, arith, Bool, true, false, not, ◌&&◌, Option,
  none, some, List, [], ◌∷◌, ◌++◌, Double, Bytes, codes, if◌then◌else◌, Bool-cases, inl, inr,
}
use so_magazyn_firmy_spedycy.Shared.{SharedState}
use so_magazyn_firmy_spedycy.Manager.{World, init_world, Outcome, returned, blocked, exited}
use so_magazyn_firmy_spedycy.Manager.Lifecycle.{Kernel, construct, destruct, world_of, left_over}
use so_magazyn_firmy_spedycy.Belt.Fifo.{count_from}

-- the arguments of `spawnChild`
pub record Child : Type 0 where
  pub binary_path : Bytes
  pub proc_name : Bytes
  pub arg : Bytes

-- the children, in the order in which they are started
abbrev pub children : List Child
children =
    record { binary_path = codes "./build/dispatcher"; proc_name = codes "dispatcher"; arg = [] }
    ∷ record { binary_path = codes "./build/express"; proc_name = codes "express"; arg = [] }
    ∷ record { binary_path = codes "./build/belt"; proc_name = codes "belt"; arg = [] }
    ∷ record { binary_path = codes "./build/truck"; proc_name = codes "truck"; arg = codes "1" }
    ∷ record { binary_path = codes "./build/truck"; proc_name = codes "truck"; arg = codes "2" }
    ∷ record { binary_path = codes "./build/worker"; proc_name = codes "worker"; arg = codes "1" }
    ∷ record { binary_path = codes "./build/worker"; proc_name = codes "worker"; arg = codes "2" }
    ∷ record { binary_path = codes "./build/worker"; proc_name = codes "worker"; arg = codes "3" }
    ∷ []

-- `argv` of the child
unfoldable pub child_args : Child → List Bytes
child_args c = elim c.arg [ [] ↦ c.proc_name ∷ [] | b ∷ bs ↦ c.proc_name ∷ (b ∷ bs) ∷ [] ]

-- `children_pids` after calls of `spawnChild` in the parent; or `exit(1)` because `fork` fails, with what
-- `children_pids` holds then; and the IPC objects at that moment
pub data Spawned (W : Type 0) : Type 0 where
  all_spawned fork_failed : List ℕ → World W → Spawned W

module _ {W : Type 0} where
  abbrev spawn_child : Option ℕ → List ℕ → World W → Spawned W
  spawn_child none pids world = fork_failed pids world
  spawn_child (some pid) pids world = all_spawned (pids ++ pid ∷ []) world

  -- `meanwhile i` is what the children started before do to the IPC objects between the i-th call and the next.
  unfoldable pub spawn_all :
      List Child → ℕ → (ℕ → Option ℕ) → (ℕ → World W → World W) → List ℕ → World W → Spawned W
  spawn_all [] i forks meanwhile pids world = all_spawned pids world
  spawn_all (c ∷ cs) i forks meanwhile pids world = elim (spawn_child (forks i) pids world) [
    | all_spawned more now ↦ spawn_all cs (suc i) forks meanwhile more (meanwhile i now)
    | fork_failed more now ↦ fork_failed more now
  ]

-- How the process ends: its exit status, the children that it has started, those of them that it has sent
-- SIGTERM, and the objects that it leaves.
pub record Ending (W : Type 0) : Type 0 where
  pub status : ℕ
  pub started : List ℕ
  pub signalled : List ℕ
  pub kernel : Kernel W

module _ {W : Type 0} where
  -- The monitoring loop, with what each round finds: `stop_requested`, and the work of the other
  -- processes. When the list ends, the next round is still to come.
  unfoldable pub watch :
      List (Bool × (SharedState W → SharedState W)) → SharedState W → Outcome (SharedState W)
  watch [] shm = blocked
  watch ((stop_requested, others) ∷ rounds) shm =
      let more = watch rounds (others shm) in
      if not stop_requested && (others shm).running then more else returned (others shm)

  -- Behind the loop: `running` is cleared, the children get SIGTERM, and the destructor runs.
  abbrev shut : List ℕ → Kernel W → Outcome (SharedState W) → Outcome (Ending W)
  shut pids k (returned shm) = returned (record {
    status = 0;
    started = pids;
    signalled = pids;
    kernel = destruct true (record k { segment = some (record shm { running = false }) });
  })
  shut pids k blocked = blocked
  shut pids k (exited e) = exited e

  -- `exit` does not run the destructor of `manager`, which is a local variable of `main`.
  abbrev after_spawn :
      List (Bool × (SharedState W → SharedState W)) → Kernel W → Spawned W → Outcome (Ending W)
  after_spawn rounds k (all_spawned pids world) = shut pids k (watch rounds world.shm)
  after_spawn rounds k (fork_failed pids world) = returned (record {
    status = 1;
    started = pids;
    signalled = [];
    kernel = record k {
      segment = some world.shm;
      semaphores = some world.sem;
      messages = some world.queue;
    };
  })

  -- the calls of `spawnChild`, on the objects that the constructor has connected, and the rest
  abbrev spawn_over :
      (ℕ → Option ℕ)
      → (ℕ → World W → World W)
      → List (Bool × (SharedState W → SharedState W))
      → Kernel W
      → Option (World W)
      → Outcome (Ending W)
  spawn_over forks meanwhile rounds k none = blocked
  spawn_over forks meanwhile rounds k (some world) =
      after_spawn rounds k (spawn_all children 0 forks meanwhile [] world)

module _ {W : Type 0} ⦃d : Double W⦄ where
  unfoldable pub master_main :
      (ℕ → Option ℕ)
      → (ℕ → World W → World W)
      → List (Bool × (SharedState W → SharedState W))
      → Kernel W
      → Outcome (Ending W)
  unfolding spawn_all watch construct destruct
  master_main forks meanwhile rounds k = elim (construct true k) [
    | returned k' ↦ spawn_over forks meanwhile rounds k' (world_of k')
    | blocked ↦ blocked
    | exited e ↦ exited e
  ]

  -- The loop ends at a round that finds the stop request, if not before.
  watch_ends :
      (rounds : List (Bool × (SharedState W → SharedState W)))
      (others : SharedState W → SharedState W) (shm : SharedState W)
      → (last : SharedState W) × (watch (rounds ++ (true, others) ∷ []) shm ≡ returned last)
  unfolding watch
  watch_ends [] others shm = (others shm, refl)
  watch_ends ((stop, f) ∷ rounds) others shm = elim (Bool-cases (not stop && (f shm).running)) [
    | inl on ↦ let (last, e) = watch_ends rounds others (f shm) in (last, rw on e)
    | inr off ↦ (f shm, rw off refl)
  ]

  -- what the children do between `n` calls in a row, from the i-th on
  abbrev pub changed : (ℕ → World W → World W) → ℕ → ℕ → World W → World W
  changed meanwhile i zero world = world
  changed meanwhile i (suc n) world = changed meanwhile (suc i) n (meanwhile i world)

  -- If no call of the constructor and no `fork` fails, then after Ctrl+C at the latest `main` returns 0:
  -- all eight children have been sent SIGTERM, in the order in which they were started, and none of
  -- the three objects is left, whatever objects there were before and whatever the processes did.
  pub master_main_lem :
      (pid : ℕ → ℕ) (meanwhile : ℕ → World W → World W)
      (rounds : List (Bool × (SharedState W → SharedState W)))
      (others : SharedState W → SharedState W) (k : Kernel W)
      → k.reports ≡ []
      → master_main (λ i. some (pid i)) meanwhile (rounds ++ (true, others) ∷ []) k
        ≡ returned (record {
          status = 0;
          started = map pid (count_from 0 8);
          signalled = map pid (count_from 0 8);
          kernel = record { segment = none; semaphores = none; messages = none; reports = [] };
        })
  unfolding master_main init_world
  master_main_lem pid meanwhile rounds others k q = ground (
    arith,
    (watch_ends rounds others
        (changed meanwhile 0 8 (record init_world { queue = left_over k.messages })).shm).1,
  )

-- Every call of `fork` before the i-th gives a child, and the i-th fails.
abbrev pub failing : ℕ → (ℕ → ℕ) → ℕ → Option ℕ
failing i pid j = if j == i then none else some (pid j)

module _ {W : Type 0} ⦃d : Double W⦄ where
  spawn_all-fails :
      (cs : List Child) (m n k : ℕ) (pid : ℕ → ℕ) (meanwhile : ℕ → World W → World W)
      (pids : List ℕ) (world : World W)
      → k ≡ n + m
      → m < length cs
      → spawn_all cs n (failing k pid) meanwhile pids world
        ≡ fork_failed (pids ++ map pid (count_from n m)) (changed meanwhile n m world)
  unfolding spawn_all
  spawn_all-fails [] m n k pid meanwhile pids world at h = ground (arith, h)
  spawn_all-fails (c ∷ cs) zero n k pid meanwhile pids world at h =
      ground (arith, append-nil pids, at)
  spawn_all-fails (c ∷ cs) (suc m) n k pid meanwhile pids world at h = ground (
    arith,
    at,
    spawn_all-fails cs m (suc n) k pid meanwhile (pids ++ pid n ∷ []) (meanwhile n world)
        (omega (arith, at)) (omega (arith, h)),
    append_assoc pids (pid n ∷ []) (map pid (count_from (suc n) m)),
  )

  -- If the i-th `fork`, counted from 0, is the first that fails and no call of the constructor does, `main`
  -- ends with status 1: the i children before it have been started and are not sent SIGTERM, and all
  -- three objects are left, as these children have changed them meanwhile.
  pub fork_failure :
      (i : ℕ) (pid : ℕ → ℕ) (meanwhile : ℕ → World W → World W)
      (rounds : List (Bool × (SharedState W → SharedState W))) (k : Kernel W)
      → i < 8
      → k.reports ≡ []
      → (k' : Kernel W) × (master_main (failing i pid) meanwhile rounds k
          ≡ returned (record {
            status = 1;
            started = map pid (count_from 0 i);
            signalled = [];
            kernel = k';
          }))
        × (world_of k'
            ≡ some
                (record (changed meanwhile 0 i
                  (record init_world { queue = left_over k.messages })) { faults = [] }))
  unfolding master_main init_world
  fork_failure i pid meanwhile rounds k h q = (
    record {
      segment = some last.shm;
      semaphores = some last.sem;
      messages = some last.queue;
      reports = [];
    },
    ground (arith, q, spawn_all-fails children i 0 i pid meanwhile [] first (omega arith) h),
    refl,
  )
    where
      first : World W
      first = record init_world { queue = left_over k.messages }

      last : World W
      last = changed meanwhile 0 i first
