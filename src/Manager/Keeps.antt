-- ===== src/Manager/Keeps.antt =====
-- include/Manager.h: the wrappers of the system calls leave the shared memory alone.
use so_magazyn_firmy_spedycy.Base.{
  ℕ, zero, suc, Bool, true, false, not, ◌&&◌, Option, none, some, if◌then◌else◌,
}
use so_magazyn_firmy_spedycy.Shared.{SharedState, SignalType, CommandMessage}
use so_magazyn_firmy_spedycy.Manager.Monad.{
  queue_full, World, SemIndex, sem_mutex_belt, sem_dock_mutex, Errno, Outcome, returned, exited, M,
  ◌>>=◌, ◌>>◌, get_state, put_state, After, After-bind,
}
use so_magazyn_firmy_spedycy.Manager.Ipc.{
  SemOp, wait, signal, sem_value, next_fault, take_one, is_removed, is_eintr, semop, semop_failed,
  later_faults, on_semop, on_msgsnd, sem_operation, lock_belt, unlock_belt, lock_dock, unlock_dock,
  send_signal,
}

pub After-if :
    {W A : Type 0} (P : World W → Type 0) (b : Bool) (x y : Outcome (A × World W))
    → After P x
    → After P y
    → After P (if b then x else y)
After-if P true x y hx hy = hx
After-if P false x y hx hy = hy

module _ {W : Type 0} (P : SharedState W → Type 0) where
  abbrev pub Holds : World W → Type 0
  Holds w = P w.shm

  take_one-keeps : (i : SemIndex) (w : World W) (v : ℕ) → Holds w → After Holds (take_one i w v)
  take_one-keeps i w zero h = tt
  take_one-keeps i w (suc v) h = h

  semop-keeps : (i : SemIndex) (op : SemOp) (w : World W) → Holds w → After Holds (semop i op w)
  unfolding semop
  semop-keeps i wait w h = take_one-keeps i w (sem_value i w.sem) h
  semop-keeps i signal w h = h

  report-keeps :
      (i : SemIndex) (op : SemOp) (w : World W) (report : Option Errno)
      → Holds w
      → After Holds (on_semop i op report w)
  unfolding semop_failed
  report-keeps i op w none h = semop-keeps i op w h
  report-keeps i op w (some e) h =
      After-if Holds (is_removed e && not w.shm.running) (returned (tt, w)) _ h
        (After-if Holds (is_eintr e) (returned (tt, w)) (exited e) h tt)

  pub sem_operation-keeps :
      (i : SemIndex) (op : SemOp) (w : World W) → Holds w → After Holds (sem_operation i op w)
  unfolding sem_operation
  sem_operation-keeps i op w h =
      report-keeps i op (record w { faults = later_faults w.faults }) (next_fault w.faults) h

  pub lock_belt-keeps : (w : World W) → Holds w → After Holds (lock_belt w)
  unfolding lock_belt
  lock_belt-keeps = sem_operation-keeps sem_mutex_belt wait

  pub unlock_belt-keeps : (w : World W) → Holds w → After Holds (unlock_belt w)
  unfolding unlock_belt
  unlock_belt-keeps = sem_operation-keeps sem_mutex_belt signal

  pub lock_dock-keeps : (w : World W) → Holds w → After Holds (lock_dock w)
  unfolding lock_dock
  lock_dock-keeps = sem_operation-keeps sem_dock_mutex wait

  pub unlock_dock-keeps : (w : World W) → Holds w → After Holds (unlock_dock w)
  unfolding unlock_dock
  unlock_dock-keeps = sem_operation-keeps sem_dock_mutex signal

  sent-keeps :
      (m : CommandMessage) (report : Option Errno) (w : World W)
      → Holds w
      → After Holds (on_msgsnd m report w)
  sent-keeps m none w h = h
  sent-keeps m (some queue_full) w h = tt
  sent-keeps m (some e) w h = h

  pub send_signal-keeps :
      (pid : ℕ) (s : SignalType) (w : World W) → Holds w → After Holds (send_signal pid s w)
  unfolding send_signal
  send_signal-keeps pid s w h =
      sent-keeps _ (next_fault w.faults) (record w { faults = later_faults w.faults }) h

  -- a critical section of the belt mutex that reads the state and writes it once
  pub locked_belt-keeps :
      {A : Type 0} (f : SharedState W → SharedState W) (k : SharedState W → M W A)
      → ((s : SharedState W) → P s → P (f s))
      → ((s : SharedState W) (w : World W) → Holds w → After Holds (k s w))
      → (w : World W) → Holds w
      → After Holds
          ((lock_belt >> (get_state >>= λ shm. put_state (f shm) >> (unlock_belt >> k shm))) w)
  locked_belt-keeps f k step next w h =
      After-bind Holds (lock_belt w) _
        (λ _ w' h'.
          After-bind Holds (unlock_belt (record w' { shm = f w'.shm })) (λ _. k w'.shm)
            (λ _. next w'.shm) (unlock_belt-keeps (record w' { shm = f w'.shm }) (step w'.shm h')))
        (lock_belt-keeps w h)
