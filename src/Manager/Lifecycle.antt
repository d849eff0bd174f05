-- ===== src/Manager/Lifecycle.antt =====
-- include/Manager.h: the constructor and the destructor, against the kernel's three IPC objects under
-- the program's keys. Processes that are still attached to a removed segment keep it to themselves
-- and are outside the model; so are permissions.
use so_magazyn_firmy_spedycy.Base.{
  ◌≡◌, ◌⊎◌, inl, inr, refl, arith, Bool, true, false, Option, none, some, List, [], Option-cases,
  Double, if◌then◌else◌,
}
use so_magazyn_firmy_spedycy.Shared.{SharedState, CommandMessage, init_state}
use so_magazyn_firmy_spedycy.Manager.{
  Semaphores, init_semaphores, Errno, other_errno, World, init_world, Outcome, returned, blocked,
  exited, next_fault, later_faults,
}

-- The objects that exist, and what the coming calls of the constructor report: `none` for the documented
-- behaviour, `some e` for -1 with that `errno`. When the list has run out they do not fail.
pub record Kernel (W : Type 0) : Type 0 where
  pub segment : Option (SharedState W)
  pub semaphores : Option Semaphores
  pub messages : Option (List CommandMessage)
  pub reports : List (Option Errno)

-- ENOENT: there is no object under the key, and the call does not create one.
abbrev pub enoent : Errno
enoent = other_errno 2

-- a new set, before its values are set
abbrev zero_semaphores : Semaphores
zero_semaphores = record { mutex_belt = 0; empty_slots = 0; full_slots = 0; dock_mutex = 0 }

-- The object under the key if there is one; with IPC_CREAT a new one otherwise.
abbrev found_or {ℓ} : {A : Type ℓ} → Bool → Option A → A → Option A
found_or create (some a) new = some a
found_or create none new = if create then some new else none

-- the messages that an old queue still holds
abbrev pub left_over : Option (List CommandMessage) → List CommandMessage
left_over none = []
left_over (some ms) = ms

module _ {W : Type 0} where
  abbrev on_report : Option Errno → Outcome (Kernel W) → Outcome (Kernel W)
  on_report none done = done
  on_report (some e) done = exited e

  -- a call that ends the process if it fails
  abbrev checked : (Kernel W → Outcome (Kernel W)) → Kernel W → Outcome (Kernel W)
  checked body k =
      on_report (next_fault k.reports) (body (record k { reports = later_faults k.reports }))

  infixl 5 ◌and_then◌
  abbrev ◌and_then◌ : Outcome (Kernel W) → (Kernel W → Outcome (Kernel W)) → Outcome (Kernel W)
  o and_then f = elim o [ returned k ↦ f k | blocked ↦ blocked | exited e ↦ exited e ]

  abbrev present {ℓ} : {A : Type ℓ} → Option A → Kernel W → Outcome (Kernel W)
  present none k = exited enoent
  present (some a) k = returned k

  -- `shmget` and `shmctl` of the old segment; if one fails the code goes on.
  abbrev drop_old : Kernel W → Kernel W
  drop_old k = elim (next_fault k.reports) [
    | none ↦ record k { segment = none; reports = later_faults k.reports }
    | some e ↦ record k { reports = later_faults k.reports }
  ]

  abbrev get_semaphores : Bool → Kernel W → Outcome (Kernel W)
  get_semaphores owner k =
      let found = found_or owner k.semaphores zero_semaphores in
      present found (record k { semaphores = found })

  abbrev get_messages : Bool → Kernel W → Outcome (Kernel W)
  get_messages owner k =
      let found = found_or owner k.messages [] in present found (record k { messages = found })

  -- `~Manager`, whose calls succeed
  unfoldable pub destruct : Bool → Kernel W → Kernel W
  destruct owner k =
      if owner then record k { segment = none; semaphores = none; messages = none } else k

  -- what a process works on that is connected to all three
  abbrev connected :
      Option (SharedState W) → Option Semaphores → Option (List CommandMessage) → Option (World W)
  connected (some shm) (some sem) (some queue) =
      some (record { shm = shm; sem = sem; queue = queue; faults = [] })
  connected _ _ _ = none

  abbrev pub world_of : Kernel W → Option (World W)
  world_of k = connected k.segment k.semaphores k.messages

module _ {W : Type 0} ⦃d : Double W⦄ where
  abbrev get_segment : Bool → Kernel W → Outcome (Kernel W)
  get_segment owner k =
      let found = found_or owner k.segment (record init_state { running = false }) in
      present found (record k { segment = found })

  -- `memset`, the four assignments and the four `semctl` calls
  abbrev initialise : Kernel W → Kernel W
  initialise k = record k { segment = some init_state; semaphores = some init_semaphores }

  unfoldable pub construct : Bool → Kernel W → Outcome (Kernel W)
  construct owner k =
      checked (get_segment owner) (if owner then drop_old k else k)
      and_then checked returned
      and_then checked (get_semaphores owner)
      and_then checked (get_messages owner)
      and_then λ k'. returned (if owner then initialise k' else k')

  -- With no failing call, the owner's constructor returns, whatever objects an earlier run left: segment
  -- and semaphores are as new, but the messages of an old queue are still there.
  pub owner_starts :
      (k : Kernel W)
      → k.reports ≡ []
      → (k' : Kernel W) × (construct true k ≡ returned k')
        × (world_of k' ≡ some (record init_world { queue = left_over k.messages }))
  unfolding construct init_world
  owner_starts k q = (
    record {
      segment = some init_state;
      semaphores = some init_semaphores;
      messages = some (left_over k.messages);
      reports = [];
    },
    ground arith,
    refl,
  )

  -- After the owner's destructor a process that only connects exits with ENOENT, and a new owner that
  -- meets no failing call finds the initial world.
  pub construct-destruct :
      (k : Kernel W)
      → k.reports ≡ []
      → (k' : Kernel W) × (construct false (destruct true k) ≡ exited enoent)
        × (construct true (destruct true k) ≡ returned k')
        × (world_of k' ≡ some init_world)
  unfolding construct destruct init_world
  construct-destruct k q = (
    record {
      segment = some init_state;
      semaphores = some init_semaphores;
      messages = some [];
      reports = [];
    },
    ground arith,
    ground arith,
    refl,
  )

  -- With no failing call, a process that only connects finds the three objects as they are, or exits with
  -- ENOENT because one is missing; it never makes one.
  pub client_connects :
      (k : Kernel W)
      → k.reports ≡ []
      → ((construct false k ≡ returned k) × (w : World W) × (world_of k ≡ some w))
        ⊎ ((construct false k ≡ exited enoent) × (world_of k ≡ none))
  unfolding construct
  client_connects k q = elim (Option-cases k.segment) [
    | inl e ↦ inr (ground arith, ground arith)
    | inr (shm, e) ↦ elim (Option-cases k.semaphores) [
      | inl f ↦ inr (ground arith, ground arith)
      | inr (sem, f) ↦ elim (Option-cases k.messages) [
        | inl g ↦ inr (ground arith, ground arith)
        | inr (queue, g) ↦ inl (
          ground arith,
          record { shm = shm; sem = sem; queue = queue; faults = [] },
          ground arith,
        )
      ]
    ]
  ]
