-- ===== src/Processes/Shutdown.antt =====
-- How the processes come to their end: by the order of an administrator, and by the removal of the IPC
-- objects.
use so_magazyn_firmy_spedycy.Base.{
  ℕ, zero, suc, ◌≡◌, refl, ◌∙◌, arith, Bool, true, false, some, List, [], ◌∷◌, ◌++◌, Double, leb,
  Option, ◌==◌, Bool-cases, inl, inr, if◌then◌else◌,
}
use so_magazyn_firmy_spedycy.Shared.{
  Package, zero_package, UserSession, UserRole, CommandMessage, has_flag, sys_admin,
}
use so_magazyn_firmy_spedycy.Manager.{
  World, returned, pure, ◌>>=◌, IsDockQuiet, first_for, bind-returned, Errno, is_removed,
}
use so_magazyn_firmy_spedycy.Session.{new_session_manager, logout, write_user, read_user, closed}
use so_magazyn_firmy_spedycy.Session.Table.{entry}
use so_magazyn_firmy_spedycy.Truck.{await_signal, step}
use so_magazyn_firmy_spedycy.Truck.Class.{ended, last_delivery, vacate}
use so_magazyn_firmy_spedycy.Truck.Sections.{await_signal-some, step-leaving}
use so_magazyn_firmy_spedycy.Dispatcher.{process_next_package, load_loop}
use so_magazyn_firmy_spedycy.Belt.{pop}
use so_magazyn_firmy_spedycy.Belt.Class.{take_off, next_package}
use so_magazyn_firmy_spedycy.Terminal.{handle_stop}
use so_magazyn_firmy_spedycy.Terminal.Halt.{halt_messages, end_message, handle_stop-halts}

abbrev Finds : ℕ → List CommandMessage → Type 0
Finds pid queue =
    (m : CommandMessage) × (ms : List CommandMessage) × (first_for pid queue ≡ some (m, ms))

Finds-behind :
    (pid : ℕ) (front queue : List CommandMessage) → Finds pid queue → Finds pid (front ++ queue)
unfolding first_for
Finds-behind pid [] queue f = f
Finds-behind pid (m ∷ front) queue f = elim (Bool-cases (m.mtype == pid)) [
  | inl mine ↦ (m, front ++ queue, ground arith)
  | inr other ↦ let (n, ns, e) = Finds-behind pid front queue f in (n, m ∷ ns, ground arith)
]

Finds-halt :
    (pid : ℕ) (users : List UserSession) (i : ℕ)
    → (entry users i).active ≡ true
    → (entry users i).session_pid ≡ pid
    → Finds pid (halt_messages users)
unfolding first_for halt_messages
Finds-halt pid [] i a e = cc
Finds-halt pid (u ∷ users) zero a e = (end_message u, halt_messages users, ground arith)
Finds-halt pid (u ∷ users) (suc i) a e =
    let (m, ms, f) = Finds-halt pid users i a e in
    elim (Bool-cases u.active) [
      | inl here ↦ rw here (Finds-behind pid (end_message u ∷ []) (halt_messages users) (m, ms, f))
      | inr gone ↦ rw gone (m, ms, f)
    ]

-- Every coming call on a semaphore reports that the set has been removed.
abbrev AllRemoved : List Errno → Type 0
AllRemoved [] = Unit {0}
AllRemoved (e ∷ es) = (is_removed e ≡ true) × AllRemoved es

module _ {W : Type 0} ⦃d : Double W⦄ where
  abbrev halted : World W → World W
  halted w = record w {
    shm = record w.shm { running = false };
    queue = w.queue ++ halt_messages w.shm.users;
  }

  last_turn :
      (pid : ℕ) (a b : W) (w : World W) (m : CommandMessage) (ms : List CommandMessage)
      → IsDockQuiet w
      → w.shm.running ≡ false
      → w.shm.dock_truck.id ≡ pid
      → first_for pid w.queue ≡ some (m, ms)
      → (v : World W) × ((await_signal pid >>= λ p. step pid a b p) w ≡ returned (ended, v))
        × (v.shm.dock_truck.is_present ≡ false)
        × (v.shm.running ≡ false)
  last_turn pid a b w m ms q down at e = (
    record w { shm = vacate pid (last_delivery pid w.shm); queue = ms },
    ground (
      arith,
      await_signal-some pid w q m ms e,
      step-leaving pid (record w { shm = last_delivery pid w.shm; queue = ms })
          (record { dock_free = q.dock_free; no_faults = q.no_faults }) a b,
    ),
    ground arith,
    ground arith,
  )

  -- The order of an administrator to halt ends the truck at the dock, if an active session names its
  -- process, with the dock mutex free and no failing call: the truck does not wait any more, its process
  -- gets to the end of `run`, and the dock is empty.
  pub stop-ends_truck :
      (role : UserRole) (active : Bool) (pid i : ℕ) (a b : W) (w : World W)
      → has_flag role sys_admin ≡ true
      → IsDockQuiet w
      → w.shm.dock_truck.id ≡ pid
      → (entry w.shm.users i).active ≡ true
      → (entry w.shm.users i).session_pid ≡ pid
      → (v : World W) × ((handle_stop role active >>= λ _. await_signal pid >>= λ p. step pid a b p)
            w
          ≡ returned (ended, v))
        × (v.shm.dock_truck.is_present ≡ false)
        × (v.shm.running ≡ false)
  stop-ends_truck role active pid i a b w admin q at on mine =
      let (m, ms, e) =
        Finds-behind pid w.queue (halt_messages w.shm.users)
          (Finds-halt pid w.shm.users i on mine) in
      let (v, ran, gone, down) =
        last_turn pid a b (halted w) m ms
          (record { dock_free = q.dock_free; no_faults = q.no_faults }) refl at e in
      (
        v,
        bind-returned (handle_stop role active) (λ _. await_signal pid >>= λ p. step pid a b p) w
              (handle_stop-halts role active w admin q.no_faults)
            ∙ ran,
        gone,
        down,
      )

  pop-removed :
      (w : World W) (a b c e : Errno) (rest : List (Option Errno))
      → w.shm.running ≡ false
      → AllRemoved (a ∷ b ∷ c ∷ e ∷ [])
      → w.faults ≡ some a ∷ some b ∷ some c ∷ some e ∷ rest
      → (p : Package W) × (v : World W) × (pop w ≡ returned (p, v))
        × (v.shm.running ≡ false)
        × (v.faults ≡ rest)
  unfolding pop
  pop-removed w a b c e rest down removed f = elim (Bool-cases (leb w.shm.current_items_count 0)) [
    | inl none_left ↦ (zero_package, record w { faults = rest }, ground arith, down, refl)
    | inr some_left ↦ (
      next_package w.shm,
      record w { shm = take_off w.shm; faults = rest },
      ground arith,
      down,
      refl,
    )
  ]

  load_loop-down :
      (others : List (World W → World W)) (p : Package W) (w : World W)
      → w.shm.running ≡ false
      → load_loop others p w ≡ returned (false, w)
  unfolding load_loop
  load_loop-down [] p w down = rw down refl
  load_loop-down (other ∷ others) p w down = rw down refl

  handle-down :
      (others : List (World W → World W)) (p : Package W) (w : World W)
      → w.shm.running ≡ false
      → (if p.id == 0 then pure tt else (load_loop others p >>= λ loaded. pure tt)) w
        ≡ returned (tt, w)
  handle-down others p w down = ground (arith, load_loop-down others p w down)

  logout-removed :
      (k : ℕ) (w : World W) (a b : Errno)
      → w.shm.running ≡ false
      → AllRemoved (a ∷ b ∷ [])
      → w.faults ≡ some a ∷ some b ∷ []
      → (v : World W) × (logout (record { current_session = some k }) w
          ≡ returned (new_session_manager, v))
  unfolding logout
  logout-removed k w a b down removed f = (
    record w { shm = write_user k (closed (read_user k w.shm)) w.shm; faults = [] },
    ground arith,
  )

  -- The removal of the semaphores ends the dispatcher after the system has been stopped: whatever lies on the
  -- belt, its wait for a package, its turn and its logout return, when each of their calls reports EIDRM
  -- or EINVAL.
  pub removal-ends_dispatcher :
      (others : List (World W → World W)) (k : ℕ) (w : World W) (a b c e g h : Errno)
      → w.shm.running ≡ false
      → AllRemoved (a ∷ b ∷ c ∷ e ∷ [])
      → AllRemoved (g ∷ h ∷ [])
      → w.faults ≡ some a ∷ some b ∷ some c ∷ some e ∷ some g ∷ some h ∷ []
      → (v : World W) × ((process_next_package others >>= λ _.
              logout (record { current_session = some k }))
            w
          ≡ returned (new_session_manager, v))
  unfolding process_next_package
  removal-ends_dispatcher others k w a b c e g h down first last f =
      let (p, u, popped, down', f') = pop-removed w a b c e (some g ∷ some h ∷ []) down first f in
      let (v, out) = logout-removed k u g h down' last f' in
      (
        v,
        bind-returned (process_next_package others)
              (λ _. logout (record { current_session = some k })) w
              (bind-returned pop
                  (λ q. if q.id == 0 then pure tt else (load_loop others q >>= λ loaded. pure tt)) w
                  popped
                ∙ handle-down others p u down')
            ∙ out,
      )
