-- ===== src/Examples/Systems.antt =====
-- The processes and what surrounds them.
use so_magazyn_firmy_spedycy.Base.{
  ℕ, ◌≡◌, ◌+◌, refl, arith, true, false, none, some, [], ◌∷◌, codes, micro_double,
}
use so_magazyn_firmy_spedycy.Shared.{init_state, operator, UserSession}
use so_magazyn_firmy_spedycy.Manager.{World, returned, init_world}
use so_magazyn_firmy_spedycy.Manager.Lifecycle.{Kernel, construct, world_of, owner_starts}
use so_magazyn_firmy_spedycy.Session.{
  session_of, write_user, login, logout, enter, has_user, free_slot, closed,
}
use so_magazyn_firmy_spedycy.Config.{dispatch_log_level}
use so_magazyn_firmy_spedycy.Config.Levels.{LevelCase, dispatch_log_level_lem}
use so_magazyn_firmy_spedycy.Dispatcher
use so_magazyn_firmy_spedycy.Dispatcher.Service.{stopped}
use so_magazyn_firmy_spedycy.Processes.Guard.{with_session}
use so_magazyn_firmy_spedycy.Processes.Master.{
  master_main, master_main_lem, failing, changed, fork_failure,
}
use so_magazyn_firmy_spedycy.Processes.Sessions.{IsFree, with_session-IsFree}
use so_magazyn_firmy_spedycy.Examples.Data.{start}

-- what an earlier run that was killed has left
abbrev remains : Kernel ℕ
remains = record {
  segment = some init_state;
  semaphores = none;
  messages = some (record { mtype = 7; command_id = 1 } ∷ []);
  reports = [];
}

owner_starts_example :
    (k' : Kernel ℕ) × (construct true remains ≡ returned k')
    × (world_of k' ≡ some (record start { queue = record { mtype = 7; command_id = 1 } ∷ [] }))
owner_starts_example = owner_starts remains refl

master_main_lem_example :
    master_main
      (λ i. some (100 + i))
      (λ i shm. shm)
      ((false, λ shm. shm) ∷ (true, λ shm. shm) ∷ [])
      remains
    ≡ returned (record {
      status = 0;
      started = 100 ∷ 101 ∷ 102 ∷ 103 ∷ 104 ∷ 105 ∷ 106 ∷ 107 ∷ [];
      signalled = 100 ∷ 101 ∷ 102 ∷ 103 ∷ 104 ∷ 105 ∷ 106 ∷ 107 ∷ [];
      kernel = record { segment = none; semaphores = none; messages = none; reports = [] };
    })
master_main_lem_example =
    master_main_lem (λ i. 100 + i) (λ i shm. shm) ((false, λ shm. shm) ∷ []) (λ shm. shm) remains
      refl

-- Each child in turn takes the dock mutex.
abbrev running : ℕ → World ℕ → World ℕ
running i w = record w { sem = record w.sem { dock_mutex = 0 } }

fork_failure_example :
    (k' : Kernel ℕ) × (master_main (failing 2 (λ i. 100 + i)) running [] remains
      ≡ returned (record { status = 1; started = 100 ∷ 101 ∷ []; signalled = []; kernel = k' }))
    × (world_of k'
        ≡ some
            (record (changed running 0 2
              (record start { queue = record { mtype = 7; command_id = 1 } ∷ [] })) {
                faults = [];
              }))
fork_failure_example = fork_failure 2 (λ i. 100 + i) running [] remains (omega arith) refl

abbrev dispatcher_session : UserSession
dispatcher_session = session_of (codes "System-Dispatcher") operator 0 1 50

abbrev logged_in : World ℕ
logged_in = record start { shm = write_user 0 dispatcher_session start.shm }

abbrev logged_out : World ℕ
logged_out = record start {
  shm = record (write_user 0 (closed dispatcher_session) start.shm) { running = false };
}

with_session-IsFree_example : IsFree 0 logged_out
unfolding init_world login logout enter has_user free_slot with_session Dispatcher.run
with_session-IsFree_example =
    with_session-IsFree (codes "System-Dispatcher") operator 0 1 50 0
      (λ sm. Dispatcher.run (stopped ∷ [])) start logged_in logged_out refl refl

dispatch_log_level_lem_example : LevelCase (codes "DEBUG") (dispatch_log_level (codes "DEBUG"))
dispatch_log_level_lem_example = dispatch_log_level_lem (codes "DEBUG")
