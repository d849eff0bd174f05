-- ===== src/Truck/Class.antt =====
-- include/Truck.h, `class Truck`: the pieces of `run` between two waits, whatever the callbacks that its
-- constructor is given.
use so_magazyn_firmy_spedycy.Base.{
  ℕ, Bool, true, false, not, ◌&&◌, ◌||◌, Double, decimal, zero_double, ◌<?◌, ◌==◌, int_inc,
  if◌then◌else◌,
}
use so_magazyn_firmy_spedycy.Shared.{SharedState, TruckState, SignalType, signal_end_work}
use so_magazyn_firmy_spedycy.Manager.{M, pure, ◌>>=◌, ◌>>◌, get_state, put_state}

-- Where `run` stands: at the head of its loop; docked, before `wait_for_signal_fn`; behind the loop;
-- returned.
pub data Phase : Type 0 where
  joining docked leaving ended : Phase

abbrev pub is_end_work : SignalType → Bool
is_end_work signal_end_work = true
is_end_work _ = false

-- The fields of the class but `shm`, which is the state.
pub record Truck (W : Type 0) : Type 0 where
  pub my_pid : ℕ
  pub lock_dock_fn : M W (Unit {0})
  pub unlock_dock_fn : M W (Unit {0})
  pub wait_for_signal_fn : ℕ → M W SignalType

module _ {W : Type 0} where
  -- `shm->dock_truck.is_present = false`
  abbrev pub clear_dock : SharedState W → SharedState W
  clear_dock shm = record shm { dock_truck = record shm.dock_truck { is_present = false } }

  -- with `shm->trucks_completed++`
  abbrev pub complete : SharedState W → SharedState W
  complete shm = record shm {
    trucks_completed = int_inc shm.trucks_completed;
    dock_truck = record shm.dock_truck { is_present = false };
  }

  -- departure after a signal
  abbrev pub depart_from : ℕ → SharedState W → SharedState W
  depart_from my_pid shm = if shm.dock_truck.id == my_pid then complete shm else shm

  unfoldable pub depart : Truck W → M W (Unit {0})
  depart t = do
    t.lock_dock_fn
    shm ← get_state
    put_state (depart_from t.my_pid shm)
    t.unlock_dock_fn

  -- behind the loop
  abbrev pub vacate : ℕ → SharedState W → SharedState W
  vacate my_pid shm =
      if shm.dock_truck.is_present && shm.dock_truck.id == my_pid then clear_dock shm else shm

  unfoldable pub end_shift : Truck W → M W (Unit {0})
  end_shift t = do
    t.lock_dock_fn
    shm ← get_state
    put_state (vacate t.my_pid shm)
    t.unlock_dock_fn

module _ {W : Type 0} ⦃d : Double W⦄ where
  unfoldable pub randomize_truck_specs : ℕ → W → W → TruckState W → TruckState W
  randomize_truck_specs my_pid weight_cap vol_cap truck = record truck {
    id = my_pid;
    current_load = 0;
    current_weight = zero_double;
    current_volume = zero_double;
    max_load = 100;
    max_weight = weight_cap;
    max_volume = vol_cap;
    is_present = true;
  }

  -- a turn of the loop up to `wait_for_signal_fn`
  unfoldable pub try_dock : Truck W → W → W → M W Phase
  unfolding randomize_truck_specs
  try_dock t weight_cap vol_cap = do
    t.lock_dock_fn
    shm ← get_state
    if shm.dock_truck.is_present then (do t.unlock_dock_fn; pure joining) else (do
      put_state (record shm {
        dock_truck = randomize_truck_specs t.my_pid weight_cap vol_cap shm.dock_truck;
      })
      t.unlock_dock_fn
      pure docked)

  -- after SIGNAL_END_WORK
  abbrev pub last_delivery : ℕ → SharedState W → SharedState W
  last_delivery my_pid shm =
      if shm.dock_truck.id == my_pid && (decimal 1 1 <? shm.dock_truck.current_weight)
      then complete shm
      else (if shm.dock_truck.id == my_pid then clear_dock shm else shm)

  unfoldable pub shut_down : Truck W → M W (Unit {0})
  shut_down t = do
    t.lock_dock_fn
    shm ← get_state
    put_state (last_delivery t.my_pid shm)
    t.unlock_dock_fn

  -- the rest of the turn
  unfoldable pub await_signal : Truck W → M W Phase
  unfolding depart shut_down
  await_signal t = do
    sig ← t.wait_for_signal_fn t.my_pid
    shm ← get_state
    if is_end_work sig || not shm.running
        then (do shut_down t; pure leaving)
        else (do depart t; pure joining)
