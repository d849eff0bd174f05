-- ===== src/Terminal/Access.antt =====
-- include/terminal: who may give which order.
use so_magazyn_firmy_spedycy.Base.{
  ◌≡◌, refl, Bool, true, false, arith, List, [], ◌∷◌, ◌++◌, map, Bytes, codes, bytes_eq, tolower,
  ◌||◌, if◌then◌else◌,
}
use so_magazyn_firmy_spedycy.Shared.{UserRole, has_flag, operator, sys_admin}
use so_magazyn_firmy_spedycy.Manager.{World, M, pure, ◌>>=◌, returned, OnlyReads, bind-OnlyReads}
use so_magazyn_firmy_spedycy.Session.{SessionManager, get_current_role}
use so_magazyn_firmy_spedycy.Terminal.{
  Output, access_denied, handle_vip, handle_depart, handle_stop, CliCommand, unknown, vip, depart,
  stop, help, exit, resolve, execute, print_header, print_prompt, settle, run_line, read_line,
  Terminal, Input, no_input, eof, line, is_nil, greet, run_once,
}
use so_magazyn_firmy_spedycy.Terminal.Reads.{role_at, get_current_role_lem, greeting, greet_lem}

-- A role with neither the operator nor the administrator flag gets a refusal from all three orders, and
-- nothing happens: no signal is sent, the state and the terminal stay as they are.
pub orders_denied :
    {W : Type 0} (role : UserRole) (active : Bool) (w : World W)
    → has_flag role operator ≡ false
    → has_flag role sys_admin ≡ false
    → (handle_vip role w ≡ returned (access_denied operator ∷ [], w))
      × (handle_depart role w ≡ returned (access_denied operator ∷ [], w))
      × (handle_stop role active w ≡ returned ((access_denied sys_admin ∷ [], active), w))
unfolding handle_vip handle_depart handle_stop
orders_denied role active w o a = (ground arith, ground arith, ground arith)

module _ {W : Type 0} where
  execute-denied :
      (cmd : CliCommand) (sm : SessionManager) (role : UserRole) (active : Bool) (w : World W)
      → has_flag role operator ≡ false
      → has_flag role sys_admin ≡ false
      → OnlyReads (execute cmd sm role active) w
  unfolding execute print_header
  execute-denied unknown sm role active w o a = (_, refl)
  execute-denied vip sm role active w o a =
      bind-OnlyReads (handle_vip role) (λ out. pure (out, active)) w
        (_, (orders_denied role active w o a).0) (_, refl)
  execute-denied depart sm role active w o a =
      bind-OnlyReads (handle_depart role) (λ out. pure (out, active)) w
        (_, (orders_denied role active w o a).1) (_, refl)
  execute-denied stop sm role active w o a = (_, (orders_denied role active w o a).2)
  execute-denied help sm role active w o a = (_, refl)
  execute-denied exit sm role active w o a = (_, refl)

  if-OnlyReads :
      {A : Type 0} (b : Bool) (m n : M W A) (w : World W)
      → OnlyReads m w
      → OnlyReads n w
      → OnlyReads (if b then m else n) w
  if-OnlyReads true m n w hm hn = hm
  if-OnlyReads false m n w hm hn = hn

  settle-OnlyReads :
      (t : Terminal) (done : List Output × Bool) (w : World W) → OnlyReads (settle t done) w
  unfolding print_prompt
  settle-OnlyReads t (out, false) w = (_, refl)
  settle-OnlyReads t (out, true) w = if-OnlyReads t.keep_running _ _ w (_, refl) (_, refl)

  run_line-OnlyReads :
      (t : Terminal) (text : Bytes) (w : World W)
      → has_flag (role_at t.session.current_session w.shm) operator ≡ false
      → has_flag (role_at t.session.current_session w.shm) sys_admin ≡ false
      → OnlyReads (run_line t text) w
  unfolding run_line
  run_line-OnlyReads t text w o a =
      let done =
        execute-denied (resolve (map tolower text)) t.session
          (role_at t.session.current_session w.shm) t.active w o a in
      bind-OnlyReads (get_current_role t.session)
        (λ role. execute (resolve (map tolower text)) t.session role t.active >>= λ d. settle t d) w
        (_, get_current_role_lem t.session w)
        (bind-OnlyReads
          (execute (resolve (map tolower text)) t.session (role_at t.session.current_session w.shm)
            t.active)
          (λ d. settle t d) w done (settle-OnlyReads t done.0 w))

  read_line-OnlyReads :
      (t : Terminal) (input : Input) (w : World W)
      → has_flag (role_at t.session.current_session w.shm) operator ≡ false
      → has_flag (role_at t.session.current_session w.shm) sys_admin ≡ false
      → OnlyReads (read_line t input) w
  unfolding read_line print_prompt
  read_line-OnlyReads t no_input w o a = (_, refl)
  read_line-OnlyReads t eof w o a = (_, refl)
  read_line-OnlyReads t (line text) w o a =
      if-OnlyReads (bytes_eq text (codes "exit") || bytes_eq text (codes "quit")) _ _ w (_, refl)
        (if-OnlyReads (is_nil text) _ (run_line t text) w (_, refl)
          (run_line-OnlyReads t text w o a))

  -- Whatever a user types whose role has neither flag, and at the end of the input: a turn of the
  -- console returns, and the shared memory, the semaphores and the message queue are as before it.
  pub console_harmless :
      (t : Terminal) (input : Input) (w : World W)
      → has_flag (role_at t.session.current_session w.shm) operator ≡ false
      → has_flag (role_at t.session.current_session w.shm) sys_admin ≡ false
      → (out : List Output × Terminal) × (run_once t input w ≡ returned (out, w))
  unfolding run_once
  console_harmless t input w o a =
      let done = read_line-OnlyReads (record t { header_printed = true }) input w o a in
      bind-OnlyReads (greet t)
        (λ greeting.
          read_line (record t { header_printed = true }) input >>= λ d. pure (greeting ++ d.0, d.1))
        w (_, greet_lem t w)
        (bind-OnlyReads (read_line (record t { header_printed = true }) input)
          (λ d. pure (greeting t w.shm ++ d.0, d.1)) w done (_, refl))
