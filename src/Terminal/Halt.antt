-- ===== src/Terminal/Halt.antt =====
-- include/terminal/TerminalAction.h: the order to halt.
use mathlib.Core.List.{append_assoc, append-nil}
use so_magazyn_firmy_spedycy.Base.{
  ◌≡◌, refl, ◌∙◌, Bool, true, false, List, [], ◌∷◌, ◌++◌, if◌then◌else◌, arith, Bool-cases, inl,
  inr,
}
use so_magazyn_firmy_spedycy.Shared.{
  UserSession, UserRole, CommandMessage, has_flag, sys_admin, signal_end_work, signal_code,
}
use so_magazyn_firmy_spedycy.Manager.{World, bind-returned, returned, pure, send_signal}
use so_magazyn_firmy_spedycy.Terminal.{halt_commanded, end_all, handle_stop}

abbrev pub end_message : UserSession → CommandMessage
end_message u = record { mtype = u.session_pid; command_id = signal_code signal_end_work }

-- one SIGNAL_END_WORK for the process of each active session, in table order
unfoldable pub halt_messages : List UserSession → List CommandMessage
halt_messages [] = []
halt_messages (u ∷ users) =
    if u.active then end_message u ∷ halt_messages users else halt_messages users

module _ {W : Type 0} where
  abbrev after_one : UserSession → World W → World W
  after_one u w = record w { queue = w.queue ++ (end_message u ∷ []) }

  notify-quiet :
      (u : UserSession) (w : World W)
      → w.faults ≡ []
      → (if u.active then send_signal u.session_pid signal_end_work else pure tt) w
        ≡ returned (tt, if u.active then after_one u w else w)
  unfolding send_signal
  notify-quiet u w f = elim (Bool-cases u.active) [ inl a ↦ ground arith | inr a ↦ ground arith ]

  end_all_lem :
      (users : List UserSession) (w : World W)
      → w.faults ≡ []
      → end_all users w ≡ returned (tt, record w { queue = w.queue ++ halt_messages users })
  unfolding end_all halt_messages
  end_all_lem [] w f = ground (arith, append-nil w.queue)
  end_all_lem (u ∷ users) w f =
      bind-returned (if u.active then send_signal u.session_pid signal_end_work else pure tt)
        (λ _. end_all users) w (notify-quiet u w f)
      ∙ elim (Bool-cases u.active) [
        | inl a ↦
            rw
              (
                a,
                end_all_lem users (after_one u w) f,
                append_assoc w.queue (end_message u ∷ []) (halt_messages users),
              )
              refl
        | inr a ↦ rw (a, end_all_lem users w f) refl
      ]

  -- The order of an administrator, with no failing call: `running` is cleared, the console is no longer
  -- active, and the process of every active session has one SIGNAL_END_WORK behind what was queued.
  pub handle_stop-halts :
      (role : UserRole) (active : Bool) (w : World W)
      → has_flag role sys_admin ≡ true
      → w.faults ≡ []
      → handle_stop role active w
        ≡ returned (
          (halt_commanded ∷ [], false),
          record w {
            shm = record w.shm { running = false };
            queue = w.queue ++ halt_messages w.shm.users;
          },
        )
  unfolding handle_stop
  handle_stop-halts role active w r f =
      ground
        (arith, end_all_lem w.shm.users (record w { shm = record w.shm { running = false } }) f)
