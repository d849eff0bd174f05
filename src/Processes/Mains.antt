-- ===== src/Processes/Mains.antt =====
-- src/main_*.cpp: what each process does in its session.
use so_magazyn_firmy_spedycy.Base.{
  ℕ, ◌+◌, Bool, true, false, not, ◌&&◌, List, [], ◌∷◌, ◌++◌, Double, codes, leb, if◌then◌else◌,
}
use so_magazyn_firmy_spedycy.Shared.{
  SignalType, signal_none, signal_departure, signal_express_load, signal_end_work, operator,
  sys_admin, ◌|||◌,
}
use so_magazyn_firmy_spedycy.Manager.{World, blocked, M, pure, ◌>>=◌, ◌>>◌, receive_signal_blocking}
use so_magazyn_firmy_spedycy.Belt.{get_count, get_worker_count}
use so_magazyn_firmy_spedycy.Truck
use so_magazyn_firmy_spedycy.Truck.Class.{Phase}
use so_magazyn_firmy_spedycy.Dispatcher
use so_magazyn_firmy_spedycy.Express.{deliver_express_batch}
use so_magazyn_firmy_spedycy.Express.Class.{Draw}
use so_magazyn_firmy_spedycy.Worker.{Turn, work}
use so_magazyn_firmy_spedycy.Session.{SessionManager}
use so_magazyn_firmy_spedycy.Terminal.{Terminal, Input, Output, run_once}
use so_magazyn_firmy_spedycy.Processes.Names.{truck_name, worker_name}
use so_magazyn_firmy_spedycy.Processes.Guard.{with_session}

-- A round of a loop: whether the signal handler has set the flag, and what the other processes do, before
-- the loop tests its condition.
pub record Round (W : Type 0) : Type 0 where
  pub stop_requested : Bool
  pub others : World W → World W

abbrev pub new_terminal : SessionManager → Terminal
new_terminal sm = record {
  session = sm;
  active = true;
  header_printed = false;
  keep_running = true;
}

module _ {W : Type 0} ⦃d : Double W⦄ where
  -- what the P4 worker does with a signal; the result says whether its loop goes on
  unfoldable pub on_signal : List (Draw W) → SignalType → M W Bool
  on_signal draws signal_express_load = deliver_express_batch draws >> pure true
  on_signal draws signal_end_work = pure false
  on_signal draws signal_departure = pure true
  on_signal draws signal_none = pure true

  -- The loop of main_express.cpp, with the draws for a batch in each round. When a list of rounds ends, the
  -- next round is still to come, here and below.
  unfoldable pub express_loop : ℕ → List (Round W × List (Draw W)) → M W (Unit {0})
  unfolding on_signal receive_signal_blocking
  express_loop my_pid [] w = blocked
  express_loop my_pid ((round, draws) ∷ rounds) w =
      let turn = λ (w' : World W).
        (receive_signal_blocking my_pid >>= λ sig.
        on_signal draws sig >>= λ goes_on. if goes_on then express_loop my_pid rounds else pure tt)
          w' in
      if not round.stop_requested && (round.others w).shm.running
      then turn (round.others w)
      else pure tt (round.others w)

  unfoldable pub express_main : ℕ → List (Round W × List (Draw W)) → M W Bool
  unfolding express_loop with_session
  express_main pid rounds =
      with_session (codes "System-Express") operator 0 1 pid (λ sm. express_loop pid rounds)

  -- The loop of main_belt.cpp: the counts that it logs. The inner loop only sleeps.
  unfoldable pub monitor : ℕ → List (Round W) → M W (List (ℕ × ℕ))
  unfolding get_count get_worker_count
  monitor log_counter [] w = blocked
  monitor log_counter (round ∷ rounds) w =
      let shm = (round.others w).shm in
      let due = λ (w' : World W).
        (monitor 0 rounds >>= λ logged. pure ((get_count shm, get_worker_count shm) ∷ logged)) w' in
      let quiet = λ (w' : World W). monitor (log_counter + 1) rounds w' in
      if not round.stop_requested && shm.running
      then (if leb 5 (log_counter + 1) then due else quiet) (round.others w)
      else pure [] (round.others w)

  unfoldable pub belt_main : ℕ → List (Round W) → M W Bool
  unfolding monitor with_session
  belt_main pid rounds =
      with_session (codes "System-Belt") operator 0 1 pid
        (λ sm. monitor 0 rounds >>= λ logged. pure tt)

  unfoldable pub dispatcher_main :
      ℕ → List ((World W → World W) × List (World W → World W)) → M W Bool
  unfolding Dispatcher.run with_session
  dispatcher_main pid turns =
      with_session (codes "System-Dispatcher") operator 0 1 pid (λ sm. Dispatcher.run turns)

  unfoldable pub truck_main : ℕ → ℕ → List (W × W × (World W → World W)) → M W Bool
  unfolding Truck.drive with_session truck_name
  truck_main pid truck_id turns =
      with_session (truck_name truck_id) operator 0 1 pid
        (λ sm. Truck.drive pid turns Phase.joining)

  unfoldable pub worker_main : ℕ → ℕ → List (Turn W) → M W Bool
  unfolding work with_session worker_name
  worker_main pid worker_id turns =
      with_session (worker_name worker_id) operator 0 10 pid (λ sm. work pid sm turns)

  -- The loop of main_terminal.cpp; SIGINT clears `keep_running` before a round or not.
  unfoldable pub terminal_loop : Terminal → List (Round W × Input) → M W (List Output)
  unfolding run_once
  terminal_loop t [] w = blocked
  terminal_loop t ((round, input) ∷ rounds) w =
      let turn = λ (w' : World W).
        (run_once t input >>= λ done.
        (if done.1.keep_running then terminal_loop done.1 rounds else pure []) >>= λ out.
        pure (done.0 ++ out))
          w' in
      if t.keep_running && not round.stop_requested && (round.others w).shm.running
      then turn (round.others w)
      else pure [] (round.others w)

  unfoldable pub terminal_main : ℕ → List (Round W × Input) → M W Bool
  unfolding terminal_loop with_session
  terminal_main pid rounds =
      with_session (codes "AdminConsole") (operator ||| sys_admin) 1 1 pid
        (λ sm. terminal_loop (new_terminal sm) rounds >>= λ out. pure tt)
