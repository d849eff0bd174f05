-- ===== src/Dock.antt =====
-- The methods of include/Truck.h, include/Dispatcher.h and include/Express.h that take the dock mutex, taken
-- apart at the lock, the reading, the assignments, the messages and the unlock, and any number of
-- processes that run them, interleaved in any order. No system call fails, and the
-- message queue has room.
pub mod Invariant
pub mod Promises
pub mod Pieces
pub mod Methods
pub mod Drain
pub mod Berth
use so_magazyn_firmy_spedycy.Base.{
  ℕ, ◌<◌, ◌≡◌, Bool, true, false, not, ◌&&◌, List, [], ◌∷◌, Double, zero_double, ◌<=◌, ltb, length,
  update, if◌then◌else◌,
}
use so_magazyn_firmy_spedycy.Shared.{Package, SharedState, signal_departure}
use so_magazyn_firmy_spedycy.Manager.{
  World, returned, M, pure, ◌>>=◌, ◌>>◌, get_state, put_state, lock_dock, unlock_dock, send_signal,
  init_world,
}
use so_magazyn_firmy_spedycy.Truck.Class.{depart_from, last_delivery, vacate, randomize_truck_specs}
use so_magazyn_firmy_spedycy.Dispatcher.Class.{fits, load, is_full}
use so_magazyn_firmy_spedycy.Dispatcher.Loading.{loaded_state}
use so_magazyn_firmy_spedycy.Express.Class.{Draw}
use so_magazyn_firmy_spedycy.Express.Batch.{loadable, batch_truck}

-- What is done under the dock mutex: by a truck with its process id, in `run`, when it docks with two
-- capacities, departs, is told to end, and ends; a turn of the dispatcher; a batch of the P4 worker.
pub data Errand (W : Type 0) : Type 0 where
  docks : ℕ → W → W → Errand W
  departs shuts_down ends : ℕ → Errand W
  loads : Package W → Errand W
  delivers : List (Draw W) → Errand W

-- Where a process stands: outside these methods, before the lock, behind the lock, with what it has read
-- of the shared memory, behind the assignments with the processes to which it has still to send
-- SIGNAL_DEPARTURE.
pub data Place (W : Type 0) : Type 0 where
  outside : Place W
  about_to in_dock : Errand W → Place W
  has_read : Errand W → SharedState W → Place W
  sends : List ℕ → Place W

pub record Threads (W : Type 0) : Type 0 where
  pub world : World W
  pub at : ℕ → Place W

module _ {W : Type 0} where
  -- the fields that the dock mutex guards, taken from one state over to another
  abbrev pub with_dock : SharedState W → SharedState W → SharedState W
  with_dock seen shm = record shm {
    dock_truck = seen.dock_truck;
    trucks_completed = seen.trucks_completed;
  }

module _ {W : Type 0} ⦃d : Double W⦄ where
  -- the assignments of an errand
  unfoldable pub perform : Errand W → SharedState W → SharedState W
  unfolding randomize_truck_specs
  perform (docks my_pid weight_cap vol_cap) shm =
      if shm.dock_truck.is_present then shm else record shm {
        dock_truck = randomize_truck_specs my_pid weight_cap vol_cap shm.dock_truck;
      }
  perform (departs my_pid) shm = depart_from my_pid shm
  perform (shuts_down my_pid) shm = last_delivery my_pid shm
  perform (ends my_pid) shm = vacate my_pid shm
  perform (loads pkg) shm = loaded_state pkg shm
  perform (delivers draws) shm =
      if shm.dock_truck.is_present
      then record shm { dock_truck = batch_truck draws shm.dock_truck }
      else shm

  -- to whom it sends SIGNAL_DEPARTURE
  unfoldable pub targets : Errand W → SharedState W → List ℕ
  targets (loads pkg) shm =
      if shm.dock_truck.is_present
      then (if fits pkg shm.dock_truck && not (is_full (load pkg shm.dock_truck))
          then []
          else shm.dock_truck.id ∷ [])
      else []
  targets (delivers draws) shm =
      if shm.dock_truck.is_present
      then (if ltb (loadable draws shm.dock_truck) (length draws)
          then shm.dock_truck.id ∷ []
          else [])
      else []
  targets _ shm = []

  -- from one place to the next
  unfoldable pub advance : Place W → M W (Place W)
  unfolding lock_dock unlock_dock send_signal perform targets
  advance outside = pure outside
  advance (about_to errand) = lock_dock >> pure (in_dock errand)
  advance (in_dock errand) = get_state >>= λ shm. pure (has_read errand shm)
  advance (has_read errand seen) = get_state >>= λ shm.
      put_state (with_dock (perform errand seen) shm) >> pure (sends (targets errand seen))
  advance (sends []) = unlock_dock >> pure outside
  advance (sends (pid ∷ pids)) = send_signal pid signal_departure >> pure (sends pids)

  -- The generators draw no negative capacity.
  abbrev pub IsDrawn : Errand W → Type 0
  IsDrawn (docks my_pid a b) = ((zero_double <= a) ≡ true) × ((zero_double <= b) ≡ true)
  IsDrawn _ = Unit {0}

  -- The dock and its mutex are left alone.
  pub record Elsewhere (w v : World W) : Type 0 where
    pub truck : v.shm.dock_truck ≡ w.shm.dock_truck
    pub completed : v.shm.trucks_completed ≡ w.shm.trucks_completed
    pub mutex : v.sem.dock_mutex ≡ w.sem.dock_mutex
    pub quiet : v.faults ≡ []

  -- Processes below `n` run errands when they like, and meanwhile anything else goes on.
  pub data Move (n : ℕ) (s : Threads W) : Threads W → Type 0 where
    calls :
        (i : ℕ) (errand : Errand W)
        → i < n
        → s.at i ≡ outside
        → IsDrawn errand
        → Move n s (record s { at = update s.at i (about_to errand) })
    goes_on :
        (i : ℕ) {p : Place W} {w : World W}
        → i < n
        → advance (s.at i) s.world ≡ returned (p, w)
        → Move n s (record { world = w; at = update s.at i p })
    elsewhere : {w : World W} → Elsewhere s.world w → Move n s (record s { world = w })

  abbrev pub init_threads : Threads W
  init_threads = record { world = init_world; at = λ i. outside }

  pub data Reach (n : ℕ) : Threads W → Type 0 where
    start : Reach n init_threads
    next : {s t : Threads W} → Reach n s → Move n s t → Reach n t
