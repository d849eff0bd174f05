-- ===== src/Belt/Threads/Methods.antt =====
-- include/Belt.h and include/SessionManager.h: the four pieces of the other methods that take the belt's mutex,
-- run one after the other, beside the methods.
use so_magazyn_firmy_spedycy.Base.{
  Bool, true, false, ◌≡◌, refl, ap, sym, ◌∙◌, some, ltb, if◌then◌else◌, Double,
}
use so_magazyn_firmy_spedycy.Shared.{Package, SharedState, max_workers_per_belt}
use so_magazyn_firmy_spedycy.Manager.{
  World, M, pure, ◌>>=◌, ◌>>◌, get_state, put_state, lock_belt, unlock_belt, bind-cong, bind_assoc,
  then_tt, bind-same, wait_for_empty_slot, wait_for_package,
}
use so_magazyn_firmy_spedycy.Belt.{push, pop, belt, register_worker, unregister_worker}
use so_magazyn_firmy_spedycy.Belt.Class.{add_worker, remove_worker}
use so_magazyn_firmy_spedycy.Session.{
  new_session_manager, enter, login, logout, try_spawn_process, report_process_finished, spawn_one,
}
use so_magazyn_firmy_spedycy.Belt.Threads.{
  has_slot, has_package, Place, outside, about_to, on_duty, advance, Duty, registering, relieved,
  unregistering, entering, closing, spawning, finishing, perform,
}
use so_magazyn_firmy_spedycy.Belt.Threads.Duties.{with_belt-perform}
use so_magazyn_firmy_spedycy.Belt.Threads.Pieces.{pieces, pieces_lem}

module _ {W : Type 0} where
  -- the method of a duty, and then out of it
  abbrev pub whole_method : Duty → M W (Place W)
  whole_method registering = register_worker >>= λ _. pure outside
  whole_method unregistering = unregister_worker >>= λ _. pure outside
  whole_method (entering name role org_id max_procs pid) =
      login name role org_id max_procs pid new_session_manager >>= λ _. pure outside
  whole_method (closing i) = logout (record { current_session = some i }) >>= λ _. pure outside
  whole_method (spawning i) =
      try_spawn_process (record { current_session = some i }) >>= λ _. pure outside
  whole_method (finishing i) =
      report_process_finished (record { current_session = some i }) >>= λ _. pure outside

  -- a method that assigns between its lock and its unlock
  abbrev behind_lock : {A : Type 0} → (SharedState W → SharedState W) → (SharedState W → A) → M W A
  behind_lock f g = get_state >>= λ shm. put_state (f shm) >> (unlock_belt >> pure (g shm))

module _ {W : Type 0} ⦃d : Double W⦄ where
  duty_pieces :
      {A : Type 0} (duty : Duty) (g : SharedState W → A) (w : World W)
      → pieces 4 (about_to duty) w
        ≡ ((lock_belt >> behind_lock (perform duty) g) >>= λ _. pure outside) w
  unfolding pieces advance
  duty_pieces duty g w =
      bind_assoc lock_belt (λ _. pure (on_duty duty)) (pieces 3) w
      ∙ bind-cong lock_belt (λ _. pieces 3 (on_duty duty))
          (λ _. behind_lock (perform duty) g >>= λ _. pure outside) w
          (λ _ v.
            ap (λ s. ((put_state s >> pure (relieved duty)) >>= pieces 1) v)
              (with_belt-perform duty v.shm)
            ∙ unlocks (record v { shm = perform duty v.shm }) (g v.shm))
      ∙ sym (bind_assoc lock_belt (λ _. behind_lock (perform duty) g) (λ _. pure outside) w)
    where
      unlocks :
          {A : Type 0} (v : World W) (x : A)
          → ((unlock_belt >> pure outside) >>= pure) v
            ≡ ((unlock_belt >> pure x) >>= λ _. pure {A = Place W} outside) v
      unlocks v x =
          bind_assoc unlock_belt (λ _. pure outside) pure v
          ∙ sym (bind_assoc unlock_belt (λ _. pure x) (λ _. pure outside) v)

  registers :
      (b : Bool) (v : World W)
      → (put_state (if b then add_worker v.shm else v.shm) >> (unlock_belt >> pure b)) v
        ≡ ((if b then put_state (add_worker v.shm) >> pure true else pure false) >>= λ success.
              unlock_belt >> pure success)
            v
  registers true v = refl
  registers false v = refl

  unregisters :
      (b : Bool) (v : World W)
      → (put_state (if b then remove_worker v.shm else v.shm) >> (unlock_belt >> pure tt)) v
        ≡ ((if b then put_state (remove_worker v.shm) else pure tt) >> unlock_belt) v
  unregisters true v = then_tt unlock_belt (record v { shm = remove_worker v.shm })
  unregisters false v = then_tt unlock_belt v

  -- Whatever the system calls report, the four pieces of a duty return, sleep, exit and change the world as
  -- its method does.
  duties_lem : (duty : Duty) (w : World W) → pieces 4 (about_to duty) w ≡ whole_method duty w
  unfolding belt perform register_worker unregister_worker login logout try_spawn_process
      report_process_finished
  duties_lem registering w =
      duty_pieces registering (λ s. ltb s.current_workers_count max_workers_per_belt) w
      ∙ bind-same
          (lock_belt
            >> behind_lock (perform registering)
                (λ s. ltb s.current_workers_count max_workers_per_belt))
          register_worker (λ _. pure outside) w
          (bind-cong lock_belt _ _ w
            (λ _ v. registers (ltb v.shm.current_workers_count max_workers_per_belt) v))
  duties_lem unregistering w =
      duty_pieces unregistering (λ s. tt) w
      ∙ bind-same (lock_belt >> behind_lock (perform unregistering) (λ s. tt)) unregister_worker
          (λ _. pure outside) w
          (bind-cong lock_belt _ _ w (λ _ v. unregisters (ltb 0 v.shm.current_workers_count) v))
  duties_lem (entering name role org_id max_procs pid) w =
      duty_pieces (entering name role org_id max_procs pid)
        (λ s. (
          (enter name role org_id max_procs pid new_session_manager s).0,
          (enter name role org_id max_procs pid new_session_manager s).1,
        ))
        w
  duties_lem (closing i) w = duty_pieces (closing i) (λ s. new_session_manager) w
  duties_lem (spawning i) w = duty_pieces (spawning i) (λ s. (spawn_one i s).0) w
  duties_lem (finishing i) w = duty_pieces (finishing i) (λ s. tt) w

  -- Whatever the system calls report, the wait for a slot and then the five pieces of `push` return, sleep,
  -- exit and change the world as `push` does; so do the wait for a package and the pieces of `pop`; and so
  -- do the four pieces of each of the other methods that take the belt's mutex: `registerWorker`,
  -- `unregisterWorker`, `login` of a process that has no session, and with the index of a session
  -- `logout`, `trySpawnProcess` and `reportProcessFinished`.
  pub methods_lem :
      (pkg : Package W) (duty : Duty) (w : World W)
      → ((wait_for_empty_slot >> pieces 5 (has_slot pkg)) w ≡ (push pkg >>= λ p. pure outside) w)
        × ((wait_for_package >> pieces 5 has_package) w ≡ (pop >>= λ p. pure outside) w)
        × (pieces 4 (about_to duty) w ≡ whole_method duty w)
  methods_lem pkg duty w = ((pieces_lem pkg w).0, (pieces_lem pkg w).1, duties_lem duty w)
