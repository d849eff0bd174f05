-- ===== src/Shared/Flags.antt =====
-- include/Shared.h: limits, signal numbers, and the bitmask enumerations with their operators.
-- A bitmask `enum class` is the number of its underlying type; its enumerators are constants.
use so_magazyn_firmy_spedycy.Base.{ℕ, ◌^◌, bit_and, bit_or, Bool, not, ◌==◌}

abbrev pub max_workers_per_belt : ℕ
max_workers_per_belt = 100

abbrev pub max_belt_capacity_k : ℕ
max_belt_capacity_k = 10

abbrev pub max_package_history : ℕ
max_package_history = 6

abbrev pub max_users_sessions : ℕ
max_users_sessions = 210

-- `enum SignalType`
pub data SignalType : Type 0 where
  signal_none signal_departure signal_express_load signal_end_work : SignalType

-- `static_cast<int>(type)`
unfoldable pub signal_code : SignalType → ℕ
signal_code signal_none = 0
signal_code signal_departure = 1
signal_code signal_express_load = 2
signal_code signal_end_work = 3

abbrev pub PackageType : Type 0
PackageType = ℕ

abbrev pub UserRole : Type 0
UserRole = ℕ

abbrev pub PackageStatus : Type 0
PackageStatus = ℕ

abbrev pub ActionType : Type 0
ActionType = ℕ

-- `operator|`, `operator&` and `hasFlag`, the same for the four enumerations
infixl 40 ◌|||◌
infixl 45 ◌&&&◌
abbrev pub ◌|||◌ : ℕ → ℕ → ℕ
lhs ||| rhs = bit_or lhs rhs

abbrev pub ◌&&&◌ : ℕ → ℕ → ℕ
lhs &&& rhs = bit_and lhs rhs

unfoldable pub has_flag : ℕ → ℕ → Bool
has_flag value flag = not ((value &&& flag) == 0)

abbrev pub type_a : PackageType
type_a = 2 ^ 0

abbrev pub type_b : PackageType
type_b = 2 ^ 1

abbrev pub type_c : PackageType
type_c = 2 ^ 2

abbrev pub role_none : UserRole
role_none = 0

abbrev pub viewer : UserRole
viewer = 2 ^ 0

abbrev pub operator : UserRole
operator = 2 ^ 1

abbrev pub org_admin : UserRole
org_admin = 2 ^ 2

abbrev pub sys_admin : UserRole
sys_admin = 2 ^ 3

abbrev pub status_normal : PackageStatus
status_normal = 0

abbrev pub status_express : PackageStatus
status_express = 2 ^ 0

abbrev pub status_loaded : PackageStatus
status_loaded = 2 ^ 1

abbrev pub action_created : ActionType
action_created = 2 ^ 0

abbrev pub action_placed_on_belt : ActionType
action_placed_on_belt = 2 ^ 1

abbrev pub action_by_worker : ActionType
action_by_worker = 2 ^ 4

abbrev pub action_picked_up : ActionType
action_picked_up = 2 ^ 2

abbrev pub action_loaded_to_truck : ActionType
action_loaded_to_truck = 2 ^ 3

abbrev pub action_by_express : ActionType
action_by_express = 2 ^ 5

abbrev pub action_by_truck : ActionType
action_by_truck = 2 ^ 6

abbrev pub action_forced : ActionType
action_forced = 2 ^ 7

abbrev pub all_types : PackageType
all_types = type_a ||| type_b ||| type_c

abbrev pub all_roles : UserRole
all_roles = viewer ||| operator ||| org_admin ||| sys_admin
