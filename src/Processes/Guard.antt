-- ===== src/Processes/Guard.antt =====
-- src/main*.cpp: the session guards. Their constructor logs in and throws if that fails, which ends the
-- process with EXIT_FAILURE; their destructor logs out.
use so_magazyn_firmy_spedycy.Base.{ℕ, Bool, true, false, Bytes, if◌then◌else◌}
use so_magazyn_firmy_spedycy.Shared.{UserRole}
use so_magazyn_firmy_spedycy.Manager.{M, pure, ◌>>=◌, ◌>>◌}
use so_magazyn_firmy_spedycy.Session.{SessionManager, new_session_manager, login, logout}

module _ {W : Type 0} where
  -- the guard, alive
  abbrev pub guarded_body : (SessionManager → M W (Unit {0})) → Bool × SessionManager → M W Bool
  guarded_body body (entered, sm) =
      if entered then (body sm >> (logout sm >>= λ _. pure true)) else pure false

  -- The result says whether the process ends with EXIT_SUCCESS.
  unfoldable pub with_session :
      Bytes → UserRole → ℕ → ℕ → ℕ → (SessionManager → M W (Unit {0})) → M W Bool
  with_session name role org_id max_procs pid body =
      login name role org_id max_procs pid new_session_manager >>= guarded_body body
