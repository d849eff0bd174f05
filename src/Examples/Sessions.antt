-- ===== src/Examples/Sessions.antt =====
-- Sessions of a process.
use so_magazyn_firmy_spedycy.Base.{ℕ, ◌≡◌, refl, some, [], ◌∷◌, arith, codes, micro_double}
use so_magazyn_firmy_spedycy.Shared.{operator}
use so_magazyn_firmy_spedycy.Manager.{World, returned, After, init_world}
use so_magazyn_firmy_spedycy.Session.{
  SessionManager, new_session_manager, login, session_of, write_user,
}
use so_magazyn_firmy_spedycy.Session.Table.{init-IsSound}
use so_magazyn_firmy_spedycy.Session.Laws.{logs_in, spawns, calls, HasSoundTable, calls-IsSound}
use so_magazyn_firmy_spedycy.Session.Outcome.{
  IsQuiet, LoginCase, login_cases, spawn_times, spawn_times_lem,
}
use so_magazyn_firmy_spedycy.Worker.{Turn}
use so_magazyn_firmy_spedycy.Examples.Data.{small_package, start, staffed}

abbrev first_manager : SessionManager
first_manager = record { current_session = some 0 }

start-IsSound : HasSoundTable start
unfolding init_world
start-IsSound = init-IsSound

start-IsQuiet : IsQuiet start
unfolding init_world
start-IsQuiet = record { unlocked = refl; no_faults = refl }

calls-IsSound_example : After HasSoundTable (
    calls
      (logs_in (codes "worker-1") operator 1 3 40 new_session_manager ∷ spawns first_manager ∷ [])
      start)
calls-IsSound_example =
    calls-IsSound
      (logs_in (codes "worker-1") operator 1 3 40 new_session_manager ∷ spawns first_manager ∷ [])
      start start-IsSound

login_cases_example :
    LoginCase
      (codes "worker-1")
      (session_of (codes "worker-1") operator 1 3 40)
      new_session_manager
      start
      (login (codes "worker-1") operator 1 3 40 new_session_manager start)
login_cases_example =
    login_cases (codes "worker-1") operator 1 3 40 new_session_manager start start-IsQuiet
      start-IsSound

abbrev entered : World ℕ
entered = record start {
  shm = write_user 0 (session_of (codes "worker-1") operator 1 3 40) start.shm;
}

staffed-IsQuiet : IsQuiet staffed
unfolding init_world
staffed-IsQuiet = record { unlocked = refl; no_faults = refl }

-- a package of type A and 5 kg
abbrev turn_a : Turn ℕ
turn_a = record { type_roll = 0; weight = 5000000; garbage = small_package; others = λ w. w }

spawn_times_lem_example : (v : World ℕ) × (spawn_times 5 first_manager staffed ≡ returned (3, v))
spawn_times_lem_example = spawn_times_lem 5 0 staffed staffed-IsQuiet (omega arith) (omega arith)
