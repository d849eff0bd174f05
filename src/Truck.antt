-- ===== src/Truck.antt =====
-- include/Truck.h: a truck's process, from one wait to the next. Truck/Class is the class; here are its pieces
-- with the callbacks that the constructor of `Manager` passes. Random numbers are arguments: the
-- capacities that `weight_cap_dist` and `vol_cap_dist` draw. Sleeping and logging are left out.
pub mod Class
pub mod Sections
use so_magazyn_firmy_spedycy.Base.{
  ℕ, Bool, true, false, not, ◌&&◌, ◌||◌, Double, decimal, zero_double, ◌<?◌, ◌==◌, int_inc, List,
  [], ◌∷◌, if◌then◌else◌,
}
use so_magazyn_firmy_spedycy.Shared.{
  SharedState, TruckState, SignalType, signal_none, signal_departure, signal_express_load,
  signal_end_work,
}
use so_magazyn_firmy_spedycy.Manager.{
  World, blocked, M, pure, ◌>>=◌, ◌>>◌, get_state, put_state, lock_dock, unlock_dock,
  receive_signal_blocking,
}
use Class
use Class.{Truck, Phase, joining, docked, leaving, ended}

module _ {W : Type 0} where
  -- the `truck` of the constructor of `Manager`, in the process `my_pid`
  unfoldable pub truck : ℕ → Truck W
  unfolding lock_dock unlock_dock receive_signal_blocking
  truck my_pid = record {
    my_pid = my_pid;
    lock_dock_fn = lock_dock;
    unlock_dock_fn = unlock_dock;
    wait_for_signal_fn = receive_signal_blocking;
  }

  unfoldable pub depart : ℕ → M W (Unit {0})
  unfolding truck Class.depart
  depart my_pid = Class.depart (truck my_pid)

  unfoldable pub end_shift : ℕ → M W (Unit {0})
  unfolding truck Class.end_shift
  end_shift my_pid = Class.end_shift (truck my_pid)

module _ {W : Type 0} ⦃d : Double W⦄ where
  unfoldable pub try_dock : ℕ → W → W → M W Phase
  unfolding truck Class.try_dock
  try_dock my_pid = Class.try_dock (truck my_pid)

  unfoldable pub shut_down : ℕ → M W (Unit {0})
  unfolding truck Class.shut_down
  shut_down my_pid = Class.shut_down (truck my_pid)

  unfoldable pub await_signal : ℕ → M W Phase
  unfolding truck Class.await_signal
  await_signal my_pid = Class.await_signal (truck my_pid)

  unfoldable pub join : ℕ → W → W → M W Phase
  unfolding try_dock
  join my_pid weight_cap vol_cap = do
    shm ← get_state
    if shm.running then try_dock my_pid weight_cap vol_cap else pure leaving

  -- `run`, from one place to the next
  unfoldable pub step : ℕ → W → W → Phase → M W Phase
  step my_pid weight_cap vol_cap joining = join my_pid weight_cap vol_cap
  step my_pid weight_cap vol_cap docked = await_signal my_pid
  step my_pid weight_cap vol_cap leaving = do end_shift my_pid; pure ended
  step my_pid weight_cap vol_cap ended = pure ended

  -- `run` from some place on: for each step the capacities that would be drawn, and what the other
  -- processes do before it. When the list ends, the next step is still to come.
  unfoldable pub drive : ℕ → List (W × W × (World W → World W)) → Phase → M W (Unit {0})
  unfolding step
  drive my_pid turns ended = pure tt
  drive my_pid [] p = λ w. blocked
  drive my_pid ((a, b, others) ∷ turns) p =
      λ w. (step my_pid a b p >>= drive my_pid turns) (others w)
