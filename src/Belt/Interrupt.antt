-- ===== src/Belt/Interrupt.antt =====
-- include/Manager.h, `semOperation`: a `semop` that a signal interrupts is taken for one that
-- succeeded.
use so_magazyn_firmy_spedycy.Base.{◌+◌, ◌-◌, ◌<◌, ◌≡◌, refl, none, some, [], ◌∷◌, arith, Double}
use so_magazyn_firmy_spedycy.Shared.{Package}
use so_magazyn_firmy_spedycy.Manager.{World, returned, blocked, eintr, lock_belt}
use so_magazyn_firmy_spedycy.Belt.{push}
use so_magazyn_firmy_spedycy.Belt.Class.{numbered, place}
use so_magazyn_firmy_spedycy.Belt.Refine.{IsValid}

module _ {W : Type 0} ⦃d : Double W⦄ where
  -- Another process is behind the lock of the belt and has not assigned anything yet: but for the mutex the world
  -- is valid.
  pub record IsHeld (w : World W) : Type 0 where
    pub taken : w.sem.mutex_belt ≡ 0
    pub else_valid : IsValid (record w { sem = record w.sem { mutex_belt = 1 } })

  -- While another process holds the belt mutex, and there is room: who locks it sleeps; but if a signal
  -- interrupts the sleep of a `push`, it goes on without the mutex, writes its package, and its unlock lets
  -- a third process lock the belt although the holder has not unlocked it.
  pub push_interrupted :
      (pkg : Package W) (w : World W)
      → IsHeld w
      → w.shm.current_items_count < 10
      → (lock_belt w ≡ blocked)
        × (w' v : World W) × (push pkg (record w { faults = none ∷ some eintr ∷ [] })
            ≡ returned (numbered pkg w.shm, w'))
        × (w'.shm ≡ place pkg w.shm)
        × (lock_belt w' ≡ returned (tt, v))
  unfolding push lock_belt
  push_interrupted pkg w held room = (
    ground (arith, held.taken, held.else_valid),
    w',
    record w' { sem = record w'.sem { mutex_belt = 0 } },
    ground (arith, held.taken, held.else_valid),
    refl,
    refl,
  )
    where
      w' : World W
      w' = record w {
        shm = place pkg w.shm;
        sem = record w.sem {
          mutex_belt = 1;
          empty_slots = w.sem.empty_slots - 1;
          full_slots = w.sem.full_slots + 1;
        };
        faults = [];
      }
