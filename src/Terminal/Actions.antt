-- ===== src/Terminal/Actions.antt =====
-- include/terminal/TerminalAction.h
use so_magazyn_firmy_spedycy.Base.{
  ℕ, Bool, false, not, ◌&&◌, Option, none, some, List, [], ◌∷◌, Bytes, codes, string_of, bytes_eq,
  ltb, if◌then◌else◌,
}
use so_magazyn_firmy_spedycy.Shared.{
  UserSession, UserRole, has_flag, operator, sys_admin, signal_departure, signal_express_load,
  signal_end_work,
}
use so_magazyn_firmy_spedycy.Manager.{M, pure, ◌>>=◌, ◌>>◌, get_state, put_state, send_signal}

pub data Output : Type 0 where
  -- with the role that is needed
  access_denied : UserRole → Output
  vip_request_sent : ℕ → Output
  express_offline : Output
  departure_signal_sent : ℕ → Output
  no_truck_in_dock : Output
  halt_commanded : Output
  unknown_command : Output
  -- the user's name, organization (none for -1) and role, and whether `stop` is listed
  header : Bytes → Option ℕ → UserRole → Bool → Output
  admin_prompt : Output
  user_prompt : Output

-- `findProcessByRole`; `none` stands for -1.
unfoldable pub find_process_by_role : Bytes → List UserSession → Option ℕ
find_process_by_role name [] = none
find_process_by_role name (u ∷ users) =
    if u.active && bytes_eq (string_of u.username) name
    then some u.session_pid
    else find_process_by_role name users

-- `hasFlag(role, Operator) || hasFlag(role, SysAdmin)`, as the guards of two handlers deny it
abbrev pub is_denied : UserRole → Bool
is_denied role = not (has_flag role operator) && not (has_flag role sys_admin)

module _ {W : Type 0} where
  -- `if (target > 0)`
  abbrev pub request_vip : Option ℕ → M W (List Output)
  request_vip none = pure (express_offline ∷ [])
  request_vip (some target) =
      if ltb 0 target
      then (do send_signal target signal_express_load; pure (vip_request_sent target ∷ []))
      else pure (express_offline ∷ [])

  unfoldable pub handle_vip : UserRole → M W (List Output)
  handle_vip role = if is_denied role then pure (access_denied operator ∷ []) else (do
    shm ← get_state
    request_vip (find_process_by_role (codes "System-Express") shm.users))

  unfoldable pub handle_depart : UserRole → M W (List Output)
  handle_depart role = if is_denied role then pure (access_denied operator ∷ []) else (do
    shm ← get_state
    if shm.dock_truck.is_present
        then (do
          send_signal shm.dock_truck.id signal_departure
          pure (departure_signal_sent shm.dock_truck.id ∷ []))
        else pure (no_truck_in_dock ∷ []))

  -- the loop of `handleStop` over the session table
  unfoldable pub end_all : List UserSession → M W (Unit {0})
  end_all [] = pure tt
  end_all (u ∷ users) =
      (if u.active then send_signal u.session_pid signal_end_work else pure tt) >> end_all users

  -- The second result is `activeRef` after the call.
  unfoldable pub handle_stop : UserRole → Bool → M W (List Output × Bool)
  handle_stop role active =
      if has_flag role sys_admin
      then (do
        shm ← get_state
        put_state (record shm { running = false })
        end_all shm.users
        pure (halt_commanded ∷ [], false))
      else pure (access_denied sys_admin ∷ [], active)
