-- ===== src/Manager/Ipc.antt =====
-- include/Manager.h: `semOperation`, the lock and slot wrappers, `sendSignal` and the two receives.
use so_magazyn_firmy_spedycy.Base.{
  ℕ, zero, suc, ◌+◌, Bool, true, false, not, ◌&&◌, Option, none, some, List, [], ◌∷◌, ◌++◌, ◌==◌,
  if◌then◌else◌,
}
use so_magazyn_firmy_spedycy.Shared.{
  CommandMessage, SignalType, signal_none, signal_departure, signal_express_load, signal_end_work,
  signal_code,
}
use so_magazyn_firmy_spedycy.Manager.Monad.{
  SemIndex, sem_mutex_belt, sem_empty_slots, sem_full_slots, sem_dock_mutex, Semaphores, Errno,
  eidrm, einval, eintr, queue_full, World, Outcome, returned, blocked, exited, M, pure, ◌>>=◌,
}

-- the second argument of `semOperation`: -1 or +1
pub data SemOp : Type 0 where
  wait signal : SemOp

abbrev pub sem_value : SemIndex → Semaphores → ℕ
sem_value sem_mutex_belt s = s.mutex_belt
sem_value sem_empty_slots s = s.empty_slots
sem_value sem_full_slots s = s.full_slots
sem_value sem_dock_mutex s = s.dock_mutex

abbrev pub sem_set : SemIndex → ℕ → Semaphores → Semaphores
sem_set sem_mutex_belt v s = record s { mutex_belt = v }
sem_set sem_empty_slots v s = record s { empty_slots = v }
sem_set sem_full_slots v s = record s { full_slots = v }
sem_set sem_dock_mutex v s = record s { dock_mutex = v }

abbrev pub next_fault : List (Option Errno) → Option Errno
next_fault [] = none
next_fault (f ∷ fs) = f

abbrev pub later_faults : List (Option Errno) → List (Option Errno)
later_faults [] = []
later_faults (f ∷ fs) = fs

abbrev pub is_removed : Errno → Bool
is_removed eidrm = true
is_removed einval = true
is_removed _ = false

abbrev pub is_eintr : Errno → Bool
is_eintr eintr = true
is_eintr _ = false

module _ {W : Type 0} where
  -- takes the report of the next system call
  unfoldable pub sys_report : M W (Option Errno)
  sys_report w = returned (next_fault w.faults, record w { faults = later_faults w.faults })

  -- `semop` that succeeds: a wait at zero sleeps.
  abbrev pub take_one : SemIndex → World W → ℕ → Outcome (Unit {0} × World W)
  take_one i w zero = blocked
  take_one i w (suc v) = returned (tt, record w { sem = sem_set i v w.sem })

  unfoldable pub semop : SemIndex → SemOp → M W (Unit {0})
  semop i wait w = take_one i w (sem_value i w.sem)
  semop i signal w = returned (tt, record w { sem = sem_set i (sem_value i w.sem + 1) w.sem })

  -- the branch of `semOperation` where `semop` gave -1
  unfoldable pub semop_failed : Errno → M W (Unit {0})
  semop_failed e w =
      if is_removed e && not w.shm.running
      then returned (tt, w)
      else (if is_eintr e then returned (tt, w) else exited e)

  abbrev pub on_semop : SemIndex → SemOp → Option Errno → M W (Unit {0})
  on_semop i op none = semop i op
  on_semop i op (some e) = semop_failed e

  unfoldable pub sem_operation : SemIndex → SemOp → M W (Unit {0})
  unfolding sys_report semop semop_failed
  sem_operation i op = do on_semop i op (← sys_report)

  unfoldable pub lock_belt : M W (Unit {0})
  unfolding sem_operation
  lock_belt = sem_operation sem_mutex_belt wait

  unfoldable pub unlock_belt : M W (Unit {0})
  unfolding sem_operation
  unlock_belt = sem_operation sem_mutex_belt signal

  unfoldable pub wait_for_empty_slot : M W (Unit {0})
  unfolding sem_operation
  wait_for_empty_slot = sem_operation sem_empty_slots wait

  unfoldable pub signal_slot_freed : M W (Unit {0})
  unfolding sem_operation
  signal_slot_freed = sem_operation sem_empty_slots signal

  unfoldable pub wait_for_package : M W (Unit {0})
  unfolding sem_operation
  wait_for_package = sem_operation sem_full_slots wait

  unfoldable pub signal_package_added : M W (Unit {0})
  unfolding sem_operation
  signal_package_added = sem_operation sem_full_slots signal

  unfoldable pub lock_dock : M W (Unit {0})
  unfolding sem_operation
  lock_dock = sem_operation sem_dock_mutex wait

  unfoldable pub unlock_dock : M W (Unit {0})
  unfolding sem_operation
  unlock_dock = sem_operation sem_dock_mutex signal

  abbrev pub enqueue : CommandMessage → M W (Unit {0})
  enqueue m w = returned (tt, record w { queue = w.queue ++ (m ∷ []) })

  -- A failed `msgsnd` is only logged; one that finds the queue full sleeps.
  abbrev pub on_msgsnd : CommandMessage → Option Errno → M W (Unit {0})
  on_msgsnd m none = enqueue m
  on_msgsnd m (some queue_full) = λ w. blocked
  on_msgsnd m (some e) = pure tt

  unfoldable pub send_signal : ℕ → SignalType → M W (Unit {0})
  unfolding sys_report
  send_signal target_pid type = do
    on_msgsnd (record { mtype = target_pid; command_id = signal_code type }) (← sys_report)

-- `static_cast<SignalType>` of a command; the queue holds no other numbers.
unfoldable pub signal_of : ℕ → SignalType
signal_of zero = signal_none
signal_of (suc zero) = signal_departure
signal_of (suc (suc zero)) = signal_express_load
signal_of (suc (suc (suc zero))) = signal_end_work
signal_of (suc (suc (suc (suc n)))) = signal_none

-- `msgrcv` takes the first message of the type it asks for.
unfoldable pub first_for : ℕ → List CommandMessage → Option (CommandMessage × List CommandMessage)
first_for pid [] = none
first_for pid (m ∷ ms) =
    let rest = first_for pid ms in
    if m.mtype == pid
    then some (m, ms)
    else elim rest [ none ↦ none | some (n, ns) ↦ some (n, m ∷ ns) ]

module _ {W : Type 0} where
  -- `msgrcv` that does not fail; with no message of the type it does what `idle` says.
  abbrev pub take_message :
      Option (CommandMessage × List CommandMessage) → M W SignalType → M W SignalType
  take_message none idle w = idle w
  take_message (some (m, ms)) idle w = returned (signal_of m.command_id, record w { queue = ms })

  abbrev pub on_msgrcv : ℕ → M W SignalType → Option Errno → M W SignalType
  on_msgrcv my_pid idle none w = take_message (first_for my_pid w.queue) idle w
  on_msgrcv my_pid idle (some e) w = returned (signal_none, w)

  abbrev pub sleep : M W SignalType
  sleep w = blocked

  unfoldable pub receive_signal_blocking : ℕ → M W SignalType
  unfolding sys_report
  receive_signal_blocking my_pid = do on_msgrcv my_pid sleep (← sys_report)

  -- With IPC_NOWAIT an empty queue is an error, and gives SIGNAL_NONE as well.
  unfoldable pub receive_signal_non_blocking : ℕ → M W SignalType
  unfolding sys_report
  receive_signal_non_blocking my_pid = do on_msgrcv my_pid (pure signal_none) (← sys_report)
