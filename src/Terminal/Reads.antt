-- ===== src/Terminal/Reads.antt =====
-- include/terminal, include/SessionManager.h: what the console reads, and that it only reads.
use so_magazyn_firmy_spedycy.Base.{
  ℕ, ◌≡◌, refl, arith, Option, none, some, List, [], ◌∷◌, if◌then◌else◌, not, Bool-cases, inl, inr,
}
use so_magazyn_firmy_spedycy.Shared.{SharedState, UserRole, role_none}
use so_magazyn_firmy_spedycy.Manager.{World, returned, pure, get_state, ◌>>=◌}
use so_magazyn_firmy_spedycy.Session.{SessionManager, get_current_role, guarded, read_user}
use so_magazyn_firmy_spedycy.Terminal.{
  Terminal, Output, header_for, prompt_for, current, greet, print_prompt, print_header,
}

module _ {W : Type 0} where
  abbrev pub role_at : Option ℕ → SharedState W → UserRole
  role_at none shm = role_none
  role_at (some i) shm = (read_user i shm).role

  guarded-role :
      (o : Option ℕ) (w : World W)
      → guarded o role_none (λ i. get_state >>= λ shm. pure (read_user i shm).role) w
        ≡ returned (role_at o w.shm, w)
  guarded-role none w = refl
  guarded-role (some i) w = refl

  pub get_current_role_lem :
      (sm : SessionManager) (w : World W)
      → get_current_role sm w ≡ returned (role_at sm.current_session w.shm, w)
  unfolding get_current_role
  get_current_role_lem sm w = guarded-role sm.current_session w

  abbrev pub greeting : Terminal → SharedState W → List Output
  greeting t shm =
      if not t.header_printed
      then header_for (current t.session shm) ∷ prompt_for (current t.session shm) ∷ []
      else []

  pub greet_lem : (t : Terminal) (w : World W) → greet t w ≡ returned (greeting t w.shm, w)
  unfolding print_prompt print_header
  greet_lem t w = elim (Bool-cases t.header_printed) [ inl e ↦ ground arith | inr e ↦ ground arith ]
