-- ===== src/Express.antt =====
-- include/Express.h: the P4 worker, who loads a batch of packages straight onto the truck. Express/Class is
-- the class; here are its methods with the callbacks that the constructor of `Manager` passes.
pub mod Class
pub mod Batch
pub mod Boarding
use so_magazyn_firmy_spedycy.Base.{true, List, Double}
use so_magazyn_firmy_spedycy.Manager.{M, lock_dock, unlock_dock, send_signal}
use Class
use Class.{Express, Draw}

module _ {W : Type 0} where
  -- the `express` of the constructor of `Manager`
  unfoldable pub express : Express W
  unfolding lock_dock unlock_dock send_signal
  express = record {
    attached = true;
    lock_dock_fn = lock_dock;
    unlock_dock_fn = unlock_dock;
    send_signal_fn = send_signal;
  }

module _ {W : Type 0} ⦃d : Double W⦄ where
  unfoldable pub deliver_express_batch : List (Draw W) → M W (Unit {0})
  unfolding express Class.deliver_express_batch
  deliver_express_batch = Class.deliver_express_batch express
