-- ===== src/Belt.antt =====
-- include/Belt.h: the conveyor belt between the workers and the dispatcher. Belt/Class is the class; here
-- are its methods on the belt of a `Manager`, with the callbacks that its constructor passes.
pub mod Class
pub mod Slots
pub mod Queue
pub mod Refine
pub mod Fifo
pub mod Workers
pub mod Interrupt
pub mod Ring
pub mod Guarded
pub mod Wiring
pub mod Threads
use so_magazyn_firmy_spedycy.Base.{ℕ, Bool, true, Double, List, [], ◌∷◌}
use so_magazyn_firmy_spedycy.Shared.{SharedState, Package}
use so_magazyn_firmy_spedycy.Manager.{
  M, pure, ◌>>=◌, ◌>>◌, lock_belt, unlock_belt, wait_for_empty_slot, signal_slot_freed,
  wait_for_package, signal_package_added,
}
use Class
use Class.{Belt, place, take_off}
use Queue.{Use, put, get}

module _ {W : Type 0} where
  -- the `belt` of the constructor of `Manager`
  unfoldable pub belt : Belt W
  unfolding lock_belt unlock_belt wait_for_empty_slot signal_slot_freed wait_for_package
      signal_package_added
  belt = record {
    attached = true;
    wait_empty_fn = wait_for_empty_slot;
    signal_empty_fn = signal_slot_freed;
    wait_full_fn = wait_for_package;
    signal_full_fn = signal_package_added;
    lock_fn = lock_belt;
    unlock_fn = unlock_belt;
  }

  unfoldable pub register_worker : M W Bool
  unfolding belt Class.register_worker
  register_worker = Class.register_worker belt

  unfoldable pub unregister_worker : M W (Unit {0})
  unfolding belt Class.unregister_worker
  unregister_worker = Class.unregister_worker belt

  unfoldable pub get_count : SharedState W → ℕ
  unfolding belt Class.get_count
  get_count = Class.get_count belt

  unfoldable pub get_worker_count : SharedState W → ℕ
  unfolding belt Class.get_worker_count
  get_worker_count = Class.get_worker_count belt

module _ {W : Type 0} ⦃d : Double W⦄ where
  unfoldable pub push : Package W → M W (Package W)
  unfolding belt Class.push
  push = Class.push belt

  unfoldable pub pop : M W (Package W)
  unfolding belt Class.pop
  pop = Class.pop belt

  -- several pushes and pops in the order in which the mutex lets them through
  unfoldable pub run : List (Use W) → M W (List (Package W))
  run [] = pure []
  run (put p ∷ uses) = push p >>= λ _. run uses
  run (get ∷ uses) = pop >>= λ p. run uses >>= λ ps. pure (p ∷ ps)
