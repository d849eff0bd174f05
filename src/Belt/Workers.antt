-- ===== src/Belt/Workers.antt =====
-- include/Belt.h: the count of registered workers.
use so_magazyn_firmy_spedycy.Base.{◌≤◌, ◌<◌, ◌≡◌, true, List, [], ◌∷◌, arith}
use so_magazyn_firmy_spedycy.Manager.{World, returned, M, pure, ◌>>=◌, ◌>>◌, After, After-bind}
use so_magazyn_firmy_spedycy.Belt.{register_worker, unregister_worker}

pub data Shift : Type 0 where
  join leave : Shift

module _ {W : Type 0} where
  -- workers that register and unregister, in the order in which the mutex lets them through
  pub shifts : List Shift → M W (Unit {0})
  shifts [] = pure tt
  shifts (join ∷ ss) = register_worker >>= λ _. shifts ss
  shifts (leave ∷ ss) = unregister_worker >> shifts ss

  -- The count of workers is within the limit.
  abbrev pub IsStaffed : World W → Type 0
  IsStaffed w = w.shm.current_workers_count ≤ 100

  register-IsStaffed : (w : World W) → IsStaffed w → After IsStaffed (register_worker w)
  unfolding register_worker
  register-IsStaffed w h = ground arith

  unregister-IsStaffed : (w : World W) → IsStaffed w → After IsStaffed (unregister_worker w)
  unfolding unregister_worker
  unregister-IsStaffed w h = ground arith

  -- No order of registrations and departures takes the count of workers past 100, whatever the
  -- system calls report, in the world that is left if the calls return.
  pub shifts-IsStaffed :
      (ss : List Shift) (w : World W) → IsStaffed w → After IsStaffed (shifts ss w)
  unfolding shifts
  shifts-IsStaffed [] w h = h
  shifts-IsStaffed (join ∷ ss) w h =
      After-bind IsStaffed (register_worker w) (λ _. shifts ss) (λ _. shifts-IsStaffed ss)
        (register-IsStaffed w h)
  shifts-IsStaffed (leave ∷ ss) w h =
      After-bind IsStaffed (unregister_worker w) (λ _. shifts ss) (λ _. shifts-IsStaffed ss)
        (unregister-IsStaffed w h)

  -- With the mutex free and no failing call, a worker that finds fewer than 100 others is let in, and
  -- its leaving puts everything back.
  pub register-unregister :
      (w : World W)
      → w.sem.mutex_belt ≡ 1
      → w.faults ≡ []
      → w.shm.current_workers_count < 100
      → (register_worker >>= λ success. unregister_worker >> pure success) w ≡ returned (true, w)
  unfolding register_worker unregister_worker
  register-unregister w free quiet room = ground arith
