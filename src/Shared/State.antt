-- ===== src/Shared/State.antt =====
-- include/Shared.h: the shared memory segment. `pid_t`, `int` counters and `time_t` are natural
-- numbers: none is taken below zero. A `char[32]` is the list of its bytes.
use so_magazyn_firmy_spedycy.Base.{
  ℕ, Bool, false, true, Bytes, Double, zero_double, List, replicate,
}
use so_magazyn_firmy_spedycy.Shared.Flags.{UserRole, max_belt_capacity_k, max_users_sessions}
use so_magazyn_firmy_spedycy.Shared.Packages.{Package, zero_package}

-- `UserContext`
pub record UserContext : Type 0 where
  pub username : Bytes
  pub role : UserRole
  pub org_id : ℕ

pub record UserSession : Type 0 where
  pub active : Bool
  pub username : Bytes
  pub session_pid : ℕ
  pub role : UserRole
  pub org_id : ℕ
  pub max_processes : ℕ
  pub current_processes : ℕ

pub record TruckState (W : Type 0) : Type 0 where
  pub is_present : Bool
  pub id : ℕ
  pub current_load : ℕ
  pub max_load : ℕ
  pub current_volume : W
  pub current_weight : W
  pub max_weight : W
  pub max_volume : W

pub record SharedState (W : Type 0) : Type 0 where
  pub belt : List (Package W)
  pub head : ℕ
  pub tail : ℕ
  pub current_workers_count : ℕ
  pub current_items_count : ℕ
  pub current_belt_weight : W
  pub running : Bool
  pub trucks_completed : ℕ
  pub total_packages_created : ℕ
  pub force_truck_departure : Bool
  pub p4_load_command : Bool
  pub users : List UserSession
  pub dock_truck : TruckState W

pub record CommandMessage : Type 0 where
  pub mtype : ℕ
  pub command_id : ℕ

abbrev pub zero_session : UserSession
zero_session = record {
  active = false;
  username = replicate 32 0;
  session_pid = 0;
  role = 0;
  org_id = 0;
  max_processes = 0;
  current_processes = 0;
}

module _ {W : Type 0} ⦃d : Double W⦄ where
  abbrev pub zero_truck : TruckState W
  zero_truck = record {
    is_present = false;
    id = 0;
    current_load = 0;
    max_load = 0;
    current_volume = zero_double;
    current_weight = zero_double;
    max_weight = zero_double;
    max_volume = zero_double;
  }

  -- what the owner's constructor of `Manager` leaves: `memset` to zero, then `running = true`
  unfoldable pub init_state : SharedState W
  init_state = record {
    belt = replicate max_belt_capacity_k zero_package;
    head = 0;
    tail = 0;
    current_workers_count = 0;
    current_items_count = 0;
    current_belt_weight = zero_double;
    running = true;
    trucks_completed = 0;
    total_packages_created = 0;
    force_truck_departure = false;
    p4_load_command = false;
    users = replicate max_users_sessions zero_session;
    dock_truck = zero_truck;
  }
