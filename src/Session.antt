-- ===== src/Session.antt =====
-- include/SessionManager.h: the table of sessions in shared memory, guarded by the belt mutex.
pub mod Names
pub mod Table
pub mod Laws
pub mod Outcome
use so_magazyn_firmy_spedycy.Base.{
  ℕ, suc, ◌-◌, Bool, true, false, ◌&&◌, Option, none, some, List, [], ◌∷◌, Bytes, strncpy,
  strncmp_eq, get_or, set, ltb, int_inc, if◌then◌else◌,
}
use so_magazyn_firmy_spedycy.Shared.{SharedState, UserSession, UserRole, role_none, zero_session}
use so_magazyn_firmy_spedycy.Manager.{
  M, pure, ◌>>=◌, ◌>>◌, get_state, put_state, lock_belt, unlock_belt,
}

-- The fields of a `SessionManager` object; `none` stands for the index -1.
pub record SessionManager : Type 0 where
  pub current_session : Option ℕ

abbrev pub new_session_manager : SessionManager
new_session_manager = record { current_session = none }

-- the first loop of `login`: an active session with the same first 31 bytes of name
unfoldable pub has_user : Bytes → List UserSession → Bool
has_user name [] = false
has_user name (u ∷ users) =
    if u.active && strncmp_eq 31 u.username name then true else has_user name users

-- the second loop of `login`: the index of the first inactive entry
unfoldable pub free_slot : List UserSession → Option ℕ
free_slot [] = none
free_slot (u ∷ users) =
    let rest = free_slot users in
    if u.active then elim rest [ none ↦ none | some i ↦ some (suc i) ] else some 0

-- the entry that `login` fills in, over zeroed memory
abbrev pub session_of : Bytes → UserRole → ℕ → ℕ → ℕ → UserSession
session_of name role org_id max_procs pid = record {
  active = true;
  username = strncpy 31 name zero_session.username;
  session_pid = pid;
  role = role;
  org_id = org_id;
  max_processes = max_procs;
  current_processes = 0;
}

-- the entry after `logout`
abbrev pub closed : UserSession → UserSession
closed u = record u { active = false; role = role_none; org_id = 0; current_processes = 0 }

abbrev pub spawned : UserSession → UserSession
spawned u = record u { current_processes = int_inc u.current_processes }

abbrev pub finished : UserSession → UserSession
finished u = record u { current_processes = u.current_processes - 1 }

module _ {W : Type 0} where
  -- `shm->users[i] = u`
  abbrev pub write_user : ℕ → UserSession → SharedState W → SharedState W
  write_user i u shm = record shm { users = set shm.users i u }

  abbrev pub read_user : ℕ → SharedState W → UserSession
  read_user i shm = get_or shm.users i zero_session

  -- `login` between its lock and its unlocks
  unfoldable pub enter :
      Bytes
      → UserRole
      → ℕ
      → ℕ
      → ℕ
      → SessionManager
      → SharedState W
      → Bool × SessionManager × SharedState W
  unfolding has_user free_slot
  enter name role org_id max_procs pid sm shm =
      if has_user name shm.users then (false, sm, shm) else elim (free_slot shm.users) [
        | none ↦ (false, sm, shm)
        | some i ↦ (
          true,
          record { current_session = some i },
          write_user i (session_of name role org_id max_procs pid) shm,
        )
      ]

  -- `login`, called by process `pid`; `logout` and the rest of the methods below
  unfoldable pub login : Bytes → UserRole → ℕ → ℕ → ℕ → SessionManager → M W (Bool × SessionManager)
  unfolding lock_belt unlock_belt
  login name role org_id max_procs pid sm = do
    lock_belt
    shm ← get_state
    let done = enter name role org_id max_procs pid sm shm
    put_state done.2
    unlock_belt
    pure (done.0, done.1)

  -- `if (current_session == -1) return none_value;` before the rest of a method
  abbrev pub guarded : {A : Type 0} → Option ℕ → A → (ℕ → M W A) → M W A
  guarded none none_value body = pure none_value
  guarded (some i) none_value body = body i

  abbrev pub close_session : ℕ → M W SessionManager
  close_session i = do
    lock_belt
    shm ← get_state
    put_state (write_user i (closed (read_user i shm)) shm)
    unlock_belt
    pure (record { current_session = none })

  unfoldable pub logout : SessionManager → M W SessionManager
  unfolding lock_belt unlock_belt
  logout sm = guarded sm.current_session sm close_session

  -- `user.current_processes++` under its test; so with the decrement below
  abbrev pub spawn_one : ℕ → SharedState W → Bool × SharedState W
  spawn_one i shm =
      let user = read_user i shm in
      if ltb user.current_processes user.max_processes
      then (true, write_user i (spawned user) shm)
      else (false, shm)

  abbrev pub spawn_process : ℕ → M W Bool
  spawn_process i = do
    lock_belt
    shm ← get_state
    let done = spawn_one i shm
    put_state done.1
    unlock_belt
    pure done.0

  unfoldable pub try_spawn_process : SessionManager → M W Bool
  unfolding lock_belt unlock_belt
  try_spawn_process sm = guarded sm.current_session false spawn_process

  abbrev pub finish_one : ℕ → SharedState W → SharedState W
  finish_one i shm =
      let user = read_user i shm in
      if ltb 0 user.current_processes then write_user i (finished user) shm else shm

  abbrev pub finish_process : ℕ → M W (Unit {0})
  finish_process i = do
    lock_belt
    shm ← get_state
    put_state (finish_one i shm)
    unlock_belt
    pure tt

  unfoldable pub report_process_finished : SessionManager → M W (Unit {0})
  unfolding lock_belt unlock_belt
  report_process_finished sm = guarded sm.current_session tt finish_process

  unfoldable pub get_current_role : SessionManager → M W UserRole
  get_current_role sm =
      guarded sm.current_session role_none λ i. get_state >>= λ shm. pure (read_user i shm).role

-- `getSessionIndex`
unfoldable pub get_session_index : SessionManager → Option ℕ
get_session_index sm = sm.current_session
