-- ===== src/Session/Laws.antt =====
-- include/SessionManager.h: what the methods of a `SessionManager` do to the table.
use so_magazyn_firmy_spedycy.Base.{
  ℕ, refl, false, Option, none, some, List, [], ◌∷◌, arith, Bytes, set, inl, inr, Option-cases,
}
use so_magazyn_firmy_spedycy.Shared.{SharedState, UserRole}
use so_magazyn_firmy_spedycy.Manager.{
  World, Outcome, returned, blocked, exited, M, pure, ◌>>=◌, ◌>>◌, After, After-bind,
  locked_belt-keeps,
}
use so_magazyn_firmy_spedycy.Session.{
  SessionManager, new_session_manager, free_slot, closed, spawned, finished, write_user, read_user,
  enter, login, logout, try_spawn_process, report_process_finished, guarded, spawn_one, finish_one,
  close_session, spawn_process, finish_process,
}
use so_magazyn_firmy_spedycy.Session.Table.{IsSound, entry, session_of-IsSound, write-IsSound}

-- a call of some process on its own manager
pub data Call : Type 0 where
  logs_in : Bytes → UserRole → ℕ → ℕ → ℕ → SessionManager → Call
  logs_out spawns finishes : SessionManager → Call

module _ {W : Type 0} where
  pub call : Call → M W (Unit {0})
  call (logs_in name role org_id max_procs pid sm) =
      login name role org_id max_procs pid sm >>= λ _. pure tt
  call (logs_out sm) = logout sm >>= λ _. pure tt
  call (spawns sm) = try_spawn_process sm >>= λ _. pure tt
  call (finishes sm) = report_process_finished sm

  pub calls : List Call → M W (Unit {0})
  calls [] = pure tt
  calls (c ∷ cs) = call c >> calls cs

  abbrev pub HasSoundTable : World W → Type 0
  HasSoundTable w = IsSound w.shm.users

  pub enter-IsSound :
      (name : Bytes) (role org_id max_procs pid : ℕ) (sm : SessionManager) (shm : SharedState W)
      → IsSound shm.users
      → IsSound (enter name role org_id max_procs pid sm shm).2.users
  unfolding enter
  enter-IsSound name role org_id max_procs pid sm shm v =
      elim (Option-cases (free_slot shm.users)) [
        | inl e ↦ ground arith
        | inr (k, e) ↦
            ground (arith, session_of-IsSound shm.users k name role org_id max_procs pid v)
      ]

  guarded-keeps :
      {A : Type 0} (o : Option ℕ) (x : A) (body : ℕ → M W A)
      → ((i : ℕ) (w : World W) → HasSoundTable w → After HasSoundTable (body i w))
      → (w : World W) → HasSoundTable w
      → After HasSoundTable (guarded o x body w)
  guarded-keeps none x body step w v = v
  guarded-keeps (some i) x body step w v = step i w v

  pub spawn_one-IsSound :
      (i : ℕ) (s : SharedState W) → IsSound s.users → IsSound (spawn_one i s).1.users
  spawn_one-IsSound i s v = ground (arith, write-IsSound s.users i (spawned (entry s.users i)) v)

  pub finish_one-IsSound :
      (i : ℕ) (s : SharedState W) → IsSound s.users → IsSound (finish_one i s).users
  finish_one-IsSound i s v =
      ground (arith, v.quota i, write-IsSound s.users i (finished (entry s.users i)) v)

  pub closed-IsSound :
      (i : ℕ) (s : SharedState W)
      → IsSound s.users
      → IsSound (set s.users i (closed (entry s.users i)))
  closed-IsSound i s v =
      write-IsSound s.users i (closed (entry s.users i)) v (λ e. cc) refl (omega arith)

  -- a method whose result is dropped
  drop-IsSound :
      {A : Type 0} (o : Outcome (A × World W))
      → After HasSoundTable o
      → After HasSoundTable
          (elim o [ returned (a, w) ↦ returned (tt, w) | blocked ↦ blocked | exited e ↦ exited e ])
  drop-IsSound o h = After-bind HasSoundTable o (λ _. pure tt) (λ _ w v. v) h

  login-IsSound :
      (name : Bytes) (role org_id max_procs pid : ℕ) (sm : SessionManager) (w : World W)
      → HasSoundTable w
      → After HasSoundTable (login name role org_id max_procs pid sm w)
  unfolding login
  login-IsSound name role org_id max_procs pid sm =
      locked_belt-keeps (λ s. IsSound s.users) (λ s. (enter name role org_id max_procs pid sm s).2)
        (λ s. pure (
          (enter name role org_id max_procs pid sm s).0,
          (enter name role org_id max_procs pid sm s).1,
        ))
        (enter-IsSound name role org_id max_procs pid sm) (λ s w v. v)

  logout-IsSound :
      (sm : SessionManager) (w : World W) → HasSoundTable w → After HasSoundTable (logout sm w)
  unfolding logout
  logout-IsSound sm = guarded-keeps sm.current_session sm close_session (λ i.
      locked_belt-keeps (λ s. IsSound s.users) (λ s. write_user i (closed (read_user i s)) s)
        (λ s. pure new_session_manager) (closed-IsSound i) (λ s w v. v))

  spawn-IsSound :
      (sm : SessionManager) (w : World W)
      → HasSoundTable w
      → After HasSoundTable (try_spawn_process sm w)
  unfolding try_spawn_process
  spawn-IsSound sm = guarded-keeps sm.current_session false spawn_process (λ i.
      locked_belt-keeps (λ s. IsSound s.users) (λ s. (spawn_one i s).1)
        (λ s. pure (spawn_one i s).0) (spawn_one-IsSound i) (λ s w v. v))

  call-IsSound : (c : Call) (w : World W) → HasSoundTable w → After HasSoundTable (call c w)
  unfolding call report_process_finished
  call-IsSound (logs_in name role org_id max_procs pid sm) w v =
      drop-IsSound (login name role org_id max_procs pid sm w)
        (login-IsSound name role org_id max_procs pid sm w v)
  call-IsSound (logs_out sm) w v = drop-IsSound (logout sm w) (logout-IsSound sm w v)
  call-IsSound (spawns sm) w v = drop-IsSound (try_spawn_process sm w) (spawn-IsSound sm w v)
  call-IsSound (finishes sm) w v =
      guarded-keeps sm.current_session tt finish_process
        (λ i.
          locked_belt-keeps (λ s. IsSound s.users) (finish_one i) (λ s. pure tt)
            (finish_one-IsSound i) (λ s w' v'. v'))
        w v

  -- On a sound table, whatever processes call, in any order and whatever their system calls report: if
  -- the calls return, no two active sessions have the same first 31 bytes of name, none exceeds its
  -- quota, and the table keeps its size.
  pub calls-IsSound :
      (cs : List Call) (w : World W) → HasSoundTable w → After HasSoundTable (calls cs w)
  unfolding calls
  calls-IsSound [] w v = v
  calls-IsSound (c ∷ cs) w v =
      After-bind HasSoundTable (call c w) (λ _. calls cs) (λ _. calls-IsSound cs)
        (call-IsSound c w v)
