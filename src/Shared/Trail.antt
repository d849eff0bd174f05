-- ===== src/Shared/Trail.antt =====
-- include/Shared.h: the audit trail that `pushAction` keeps.
use so_magazyn_firmy_spedycy.Base.{ℕ, List, [], ◌∷◌}
use so_magazyn_firmy_spedycy.Shared.{Package, ActionType, push_action}

-- a call of `pushAction`, with what its two calls of `time` return
pub record Entry : Type 0 where
  pub action : ActionType
  pub pid : ℕ
  pub now : ℕ
  pub later : ℕ

module _ {W : Type 0} where
  pub record_all : List Entry → Package W → Package W
  record_all [] p = p
  record_all (e ∷ es) p = record_all es (push_action e.action e.pid e.now e.later p)
