-- ===== src/Processes/Sessions.antt =====
-- src/main*.cpp: what the session guards see to.
use so_magazyn_firmy_spedycy.Base.{
  ℕ, ◌≡◌, refl, sym, ◌∙◌, arith, Bool, true, false, some, List, Bytes, strncmp_eq, set, length,
  get_or-set_self, get_or_out, set_out, dec_lt, Bool-cases, inl, inr,
}
use so_magazyn_firmy_spedycy.Shared.{UserSession, zero_session}
use so_magazyn_firmy_spedycy.Manager.{
  World, Outcome, returned, M, pure, ◌>>=◌, ◌>>◌, get_state, put_state, lock_belt, unlock_belt,
  After, After-any, After-bind, After-returned, bind-returned, unlock_belt-keeps,
}
use so_magazyn_firmy_spedycy.Session.{
  SessionManager, new_session_manager, has_user, enter, login, logout, closed, read_user,
  write_user,
}
use so_magazyn_firmy_spedycy.Session.Table.{entry, has_user-false}
use so_magazyn_firmy_spedycy.Session.Outcome.{IsQuiet, login-enter}
use so_magazyn_firmy_spedycy.Processes.Guard.{with_session, guarded_body}

entry-closed :
    (users : List UserSession) (k : ℕ)
    → (entry (set users k (closed (entry users k))) k).active ≡ false
entry-closed users k = elim (dec_lt k (length users)) [
  | yes below ↦ rw (get_or-set_self users k (closed (entry users k)) zero_session below) refl
  | no out ↦
      rw
        (
          set_out users k (closed (entry users k)) (omega arith),
          get_or_out users k zero_session (omega arith),
        )
        refl
]

module _ {W : Type 0} where
  -- The entry `k` of the table is not in use.
  abbrev pub IsFree : ℕ → World W → Type 0
  IsFree k w = (entry w.shm.users k).active ≡ false

  logout-IsFree :
      (k : ℕ) (w : World W) → After (IsFree k) (logout (record { current_session = some k }) w)
  unfolding logout
  logout-IsFree k w =
      After-any (IsFree k) (lock_belt w)
        (λ _. get_state >>= λ shm.
          put_state (write_user k (closed (read_user k shm)) shm)
          >> (unlock_belt >> pure new_session_manager))
        λ _ u.
          After-bind (IsFree k)
            (unlock_belt (record u { shm = write_user k (closed (read_user k u.shm)) u.shm }))
            (λ _. pure new_session_manager) (λ _ v free. free)
            (unlock_belt-keeps (λ shm. (entry shm.users k).active ≡ false)
              (record u { shm = write_user k (closed (read_user k u.shm)) u.shm })
              (entry-closed u.shm.users k))

  -- Whatever a process does in its session, and whatever the others do meanwhile: if it got the entry `k`
  -- and ends with EXIT_SUCCESS, that entry is not in use any more.
  pub with_session-IsFree :
      (name : Bytes) (role org_id max_procs pid k : ℕ) (body : SessionManager → M W (Unit {0}))
      (w u v : World W)
      → login name role org_id max_procs pid new_session_manager w
        ≡ returned ((true, record { current_session = some k }), u)
      → with_session name role org_id max_procs pid body w ≡ returned (true, v)
      → IsFree k v
  unfolding with_session
  with_session-IsFree name role org_id max_procs pid k body w u v entered ended =
      After-returned (IsFree k) (guarded_body body (true, me) u)
        (After-any (IsFree k) (body me u) (λ _. logout me >>= λ _. pure true)
          λ _ t.
            After-bind (IsFree k) (logout me t) (λ _. pure true) (λ _ x free. free)
              (logout-IsFree k t))
        (sym (
            bind-returned (login name role org_id max_procs pid new_session_manager)
              (guarded_body body) w entered)
          ∙ ended)
    where
      me : SessionManager
      me = record { current_session = some k }

  refused :
      (name : Bytes) (role org_id max_procs pid : ℕ) (w : World W)
      → has_user name w.shm.users ≡ true
      → let done = enter name role org_id max_procs pid new_session_manager w.shm in
        ◌≡◌ {A = Outcome ((Bool × SessionManager) × World W)}
          (returned ((done.0, done.1), record w { shm = done.2 }))
          (returned ((false, new_session_manager), w))
  unfolding enter
  refused name role org_id max_procs pid w e = ground arith

  -- With the belt mutex free and no failing call: a process whose user name (its first 31 bytes) an active
  -- session has ends with EXIT_FAILURE at once, and changes nothing.
  pub with_session-duplicate :
      (name : Bytes) (role org_id max_procs pid i : ℕ) (body : SessionManager → M W (Unit {0}))
      (w : World W)
      → IsQuiet w
      → (entry w.shm.users i).active ≡ true
      → strncmp_eq 31 (entry w.shm.users i).username name ≡ true
      → with_session name role org_id max_procs pid body w ≡ returned (false, w)
  unfolding with_session
  with_session-duplicate name role org_id max_procs pid i body w q active same =
      bind-returned (login name role org_id max_procs pid new_session_manager) (guarded_body body) w
        (login-enter name role org_id max_procs pid new_session_manager w q
          ∙ refused name role org_id max_procs pid w taken)
    where
      taken : has_user name w.shm.users ≡ true
      taken = elim (Bool-cases (has_user name w.shm.users)) [
        | inl e ↦ e
        | inr e ↦ cc (has_user-false name w.shm.users i e active, same)
      ]
