-- ===== src/Belt/Wiring.antt =====
-- include/Manager.h: the callbacks that its constructor gives to `Belt` leave the shared memory alone, whatever
-- the system calls report.
use so_magazyn_firmy_spedycy.Base.{◌≡◌, refl}
use so_magazyn_firmy_spedycy.Manager.{
  sem_empty_slots, sem_full_slots, wait, signal, wait_for_empty_slot, signal_slot_freed,
  wait_for_package, signal_package_added, sem_operation-keeps, lock_belt-keeps, unlock_belt-keeps,
}
use so_magazyn_firmy_spedycy.Belt.{belt}
use so_magazyn_firmy_spedycy.Belt.Guarded.{IsPassive}

pub belt-IsPassive : {W : Type 0} → IsPassive (belt {W = W})
unfolding belt wait_for_empty_slot signal_slot_freed wait_for_package signal_package_added
belt-IsPassive = record {
  wait_empty = λ w. sem_operation-keeps (λ s. s ≡ w.shm) sem_empty_slots wait w refl;
  signal_empty = λ w. sem_operation-keeps (λ s. s ≡ w.shm) sem_empty_slots signal w refl;
  wait_full = λ w. sem_operation-keeps (λ s. s ≡ w.shm) sem_full_slots wait w refl;
  signal_full = λ w. sem_operation-keeps (λ s. s ≡ w.shm) sem_full_slots signal w refl;
  lock = λ w. lock_belt-keeps (λ s. s ≡ w.shm) w refl;
  unlock = λ w. unlock_belt-keeps (λ s. s ≡ w.shm) w refl;
}
