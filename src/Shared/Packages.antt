-- ===== src/Shared/Packages.antt =====
-- include/Shared.h: `ActionRecord`, `Package` with its audit trail, and the package volumes.
use so_magazyn_firmy_spedycy.Base.{
  ℕ, Double, decimal, zero_double, List, replicate, set, ltb, int_inc, if◌then◌else◌,
}
use so_magazyn_firmy_spedycy.Shared.Flags.{
  PackageType, PackageStatus, ActionType, max_package_history,
}

pub record ActionRecord : Type 0 where
  pub type : ActionType
  pub actor_pid : ℕ
  pub timestamp : ℕ

pub record Package (W : Type 0) : Type 0 where
  pub id : ℕ
  pub creator_pid : ℕ
  pub editor_pid : ℕ
  pub type : PackageType
  pub status : PackageStatus
  pub weight : W
  pub volume : W
  pub created_at : ℕ
  pub updated_at : ℕ
  pub history : List ActionRecord
  pub history_count : ℕ

abbrev pub zero_action : ActionRecord
zero_action = record { type = 0; actor_pid = 0; timestamp = 0 }

module _ {W : Type 0} where
  -- `pushAction`; `now` and `later` are what its two calls of `std::time` return.
  unfoldable pub push_action : ActionType → ℕ → ℕ → ℕ → Package W → Package W
  push_action action pid now later p =
      if ltb p.history_count max_package_history
      then record p {
        history =
            set p.history p.history_count
              (record { type = action; actor_pid = pid; timestamp = now });
        history_count = int_inc p.history_count;
        updated_at = later;
        editor_pid = pid;
      }
      else p

module _ {W : Type 0} ⦃d : Double W⦄ where
  -- `Package{}`, and a slot of the belt after `memset`
  abbrev pub zero_package : Package W
  zero_package = record {
    id = 0;
    creator_pid = 0;
    editor_pid = 0;
    type = 0;
    status = 0;
    weight = zero_double;
    volume = zero_double;
    created_at = 0;
    updated_at = 0;
    history = replicate max_package_history zero_action;
    history_count = 0;
  }

  abbrev pub vol_a : W
  vol_a = decimal 19456 6

  abbrev pub vol_b : W
  vol_b = decimal 46208 6

  abbrev pub vol_c : W
  vol_c = decimal 99712 6
