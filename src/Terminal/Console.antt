-- ===== src/Terminal/Console.antt =====
-- include/terminal/TerminalManager.h
use so_magazyn_firmy_spedycy.Base.{
  ℕ, Bool, true, false, not, ◌||◌, Option, none, some, List, [], ◌∷◌, ◌++◌, map, Bytes, codes,
  bytes_eq, string_of, tolower, get_or, ltb, if◌then◌else◌,
}
use so_magazyn_firmy_spedycy.Shared.{
  SharedState, UserSession, UserRole, role_none, has_flag, sys_admin, zero_session,
  max_users_sessions,
}
use so_magazyn_firmy_spedycy.Manager.{M, pure, ◌>>=◌, get_state}
use so_magazyn_firmy_spedycy.Session.{SessionManager, get_current_role}
use so_magazyn_firmy_spedycy.Terminal.Resolver.{
  CliCommand, unknown, vip, depart, stop, help, exit, resolve,
}
use so_magazyn_firmy_spedycy.Terminal.Actions.{
  Output, header, admin_prompt, user_prompt, unknown_command, handle_vip, handle_depart,
  handle_stop,
}

-- The fields of a `TerminalManager`, its session manager, and the global `keep_running`.
pub record Terminal : Type 0 where
  pub session : SessionManager
  pub active : Bool
  pub header_printed : Bool
  pub keep_running : Bool

-- what the poll of `stdin` and `getline` give: nothing to read, the end of the input, or a line
pub data Input : Type 0 where
  no_input eof : Input
  line : Bytes → Input

module _ {W : Type 0} where
  -- `getCurrentSession`; `none` stands for a null pointer.
  abbrev pub session_at : Option ℕ → SharedState W → Option UserSession
  session_at none shm = none
  session_at (some i) shm =
      if ltb i max_users_sessions then some (get_or shm.users i zero_session) else none

  abbrev pub current : SessionManager → SharedState W → Option UserSession
  current sm shm = session_at sm.current_session shm

abbrev pub header_for : Option UserSession → Output
header_for none = header (codes "Unknown") none role_none (has_flag role_none sys_admin)
header_for (some s) =
    header (string_of s.username) (some s.org_id) s.role (has_flag s.role sys_admin)

abbrev pub prompt_for : Option UserSession → Output
prompt_for none = user_prompt
prompt_for (some s) = if has_flag s.role sys_admin then admin_prompt else user_prompt

abbrev pub closed_terminal : Terminal → Terminal
closed_terminal t = record t { active = false; keep_running = false }

abbrev pub is_nil : Bytes → Bool
is_nil [] = true
is_nil (b ∷ bs) = false

module _ {W : Type 0} where
  unfoldable pub print_header : SessionManager → M W (List Output)
  print_header sm = get_state >>= λ shm. pure (header_for (current sm shm) ∷ [])

  unfoldable pub print_prompt : SessionManager → M W (List Output)
  print_prompt sm = get_state >>= λ shm. pure (prompt_for (current sm shm) ∷ [])

  -- the `switch` of `runOnce`, with the new value of `active`
  unfoldable pub execute : CliCommand → SessionManager → UserRole → Bool → M W (List Output × Bool)
  execute vip sm role active = handle_vip role >>= λ out. pure (out, active)
  execute depart sm role active = handle_depart role >>= λ out. pure (out, active)
  execute stop sm role active = handle_stop role active
  execute help sm role active = print_header sm >>= λ out. pure (out, active)
  execute exit sm role active = pure ([], false)
  execute unknown sm role active = pure (unknown_command ∷ [], active)

  -- the end of `runOnce`
  abbrev pub settle : Terminal → List Output × Bool → M W (List Output × Terminal)
  settle t (out, active) =
      if not active
      then pure (out, record t { active = active; keep_running = false })
      else (if t.keep_running
          then (print_prompt t.session >>= λ p. pure (out ++ p, record t { active = active }))
          else pure (out, record t { active = active }))

  -- a line that is neither empty nor `exit` nor `quit`
  unfoldable pub run_line : Terminal → Bytes → M W (List Output × Terminal)
  run_line t text = do
    let cmd = resolve (map tolower text)
    role ← get_current_role t.session
    done ← execute cmd t.session role t.active
    settle t done

  unfoldable pub read_line : Terminal → Input → M W (List Output × Terminal)
  read_line t no_input = pure ([], t)
  read_line t eof = pure ([], closed_terminal t)
  read_line t (line text) =
      if bytes_eq text (codes "exit") || bytes_eq text (codes "quit")
      then pure ([], closed_terminal t)
      else (if is_nil text then (print_prompt t.session >>= λ p. pure (p, t)) else run_line t text)

  abbrev pub greet : Terminal → M W (List Output)
  greet t =
      if not t.header_printed
      then (print_header t.session >>= λ h. print_prompt t.session >>= λ p. pure (h ++ p))
      else pure []

  unfoldable pub run_once : Terminal → Input → M W (List Output × Terminal)
  unfolding print_header print_prompt
  run_once t input = do
    greeting ← greet t
    done ← read_line (record t { header_printed = true }) input
    pure (greeting ++ done.0, done.1)
