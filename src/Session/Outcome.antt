-- ===== src/Session/Outcome.antt =====
-- include/SessionManager.h: what `login`, `logout` and `trySpawnProcess` answer when the belt mutex is
-- free and no system call fails.
use so_magazyn_firmy_spedycy.Base.{
  ℕ, zero, suc, ◌-◌, ◌≤◌, ◌<◌, min, ◌≡◌, Bool, true, false, some, [], arith, Bytes, strncmp_eq, set,
  length, inl, inr, Bool-cases, Option-cases, get_or-set_self, length-set, dec_lt, if◌then◌else◌,
  ◌^◌,
}
use so_magazyn_firmy_spedycy.Shared.{UserSession, zero_session}
use so_magazyn_firmy_spedycy.Manager.{World, Outcome, returned, M, pure, ◌>>=◌}
use so_magazyn_firmy_spedycy.Session.{
  SessionManager, has_user, free_slot, session_of, spawned, finished, write_user, enter, login,
  try_spawn_process, report_process_finished,
}
use so_magazyn_firmy_spedycy.Session.Table.{
  IsSound, entry, has_user-true, has_user-false, free_slot-some, free_slot-none,
}

module _ {W : Type 0} where
  pub record IsQuiet (w : World W) : Type 0 where
    pub unlocked : w.sem.mutex_belt ≡ 1
    pub no_faults : w.faults ≡ []

  pub login-enter :
      (name : Bytes) (role org_id max_procs pid : ℕ) (sm : SessionManager) (w : World W)
      → IsQuiet w
      → let done = enter name role org_id max_procs pid sm w.shm in
        login name role org_id max_procs pid sm w
        ≡ returned ((done.0, done.1), record w { shm = done.2 })
  unfolding login
  login-enter name role org_id max_procs pid sm w q = ground arith

  -- the three ways in which `login` ends
  pub data LoginCase (name : Bytes) (new : UserSession) (sm : SessionManager) (w : World W)
      : Outcome ((Bool × SessionManager) × World W) → Type 0 where
    duplicate :
        (i : ℕ)
        → (entry w.shm.users i).active ≡ true
        → strncmp_eq 31 (entry w.shm.users i).username name ≡ true
        → LoginCase name new sm w (returned ((false, sm), w))
    full :
        ((i : ℕ) → i < 210 → (entry w.shm.users i).active ≡ true)
        → LoginCase name new sm w (returned ((false, sm), w))
    entered :
        (k : ℕ)
        → k < 210
        → (entry w.shm.users k).active ≡ false
        → ((i : ℕ) → i < k → (entry w.shm.users i).active ≡ true)
        → ((i : ℕ)
            → (entry w.shm.users i).active ≡ true
            → strncmp_eq 31 (entry w.shm.users i).username name ≡ false)
        → LoginCase name new sm w (
            returned (
              (true, record { current_session = some k }),
              record w { shm = write_user k new w.shm },
            ))

  enter-LoginCase :
      (name : Bytes) (role org_id max_procs pid : ℕ) (sm : SessionManager) (w : World W)
      → IsSound w.shm.users
      → let done = enter name role org_id max_procs pid sm w.shm in
        LoginCase name
          (session_of name role org_id max_procs pid)
          sm
          w
          (returned ((done.0, done.1), record w { shm = done.2 }))
  unfolding enter
  enter-LoginCase name role org_id max_procs pid sm w v =
      elim (Bool-cases (has_user name w.shm.users)) [
        | inl e ↦ let (i, a, same) = has_user-true name w.shm.users e in rw e (duplicate i a same)
        | inr e ↦ elim (Option-cases (free_slot w.shm.users)) [
          | inl f ↦ rw (e, f) (full λ i lt. free_slot-none w.shm.users i f (omega (arith, v.size)))
          | inr (k, f) ↦
              let (lt, free, below) = free_slot-some w.shm.users k f in
              rw (e, f)
                (entered k (omega (arith, v.size)) free below
                  (λ i a. has_user-false name w.shm.users i e a))
        ]
      ]

  -- With the belt mutex free and no failing call, on a sound table: `login` refuses a name whose first
  -- 31 bytes an active session has, and refuses when all 210 entries are active, and then changes
  -- nothing; otherwise it fills in the first inactive entry, and only that.
  pub login_cases :
      (name : Bytes) (role org_id max_procs pid : ℕ) (sm : SessionManager) (w : World W)
      → IsQuiet w
      → IsSound w.shm.users
      → LoginCase name
          (session_of name role org_id max_procs pid)
          sm
          w
          (login name role org_id max_procs pid sm w)
  login_cases name role org_id max_procs pid sm w q v =
      rw (login-enter name role org_id max_procs pid sm w q)
        (enter-LoginCase name role org_id max_procs pid sm w v)

  pub spawn-at :
      (k : ℕ) (w : World W)
      → IsQuiet w
      → let u = entry w.shm.users k in
        (u.current_processes < u.max_processes
          → try_spawn_process (record { current_session = some k }) w
            ≡ returned (true, record w { shm = write_user k (spawned u) w.shm }))
        × (u.max_processes ≤ u.current_processes
            → try_spawn_process (record { current_session = some k }) w ≡ returned (false, w))
  unfolding try_spawn_process
  spawn-at k w q = ground arith

  pub finish-at :
      (k : ℕ) (w : World W)
      → IsQuiet w
      → 0 < (entry w.shm.users k).current_processes
      → report_process_finished (record { current_session = some k }) w
        ≡ returned (tt, record w { shm = write_user k (finished (entry w.shm.users k)) w.shm })
  unfolding report_process_finished
  finish-at k w q p = ground arith

  -- `n` calls of `trySpawnProcess` in a row: how many say yes
  pub spawn_times : ℕ → SessionManager → M W ℕ
  spawn_times zero sm = pure 0
  spawn_times (suc n) sm =
      try_spawn_process sm >>= λ ok. spawn_times n sm >>= λ m. pure (if ok then suc m else m)

  -- With a quota below 2^31, a logged-in session with `c` of `m` sub-processes running gets exactly `m - c` more of them,
  -- however often it asks, with the mutex free and no failing call.
  pub spawn_times_lem :
      (n k : ℕ) (w : World W)
      → IsQuiet w
      → k < length w.shm.users
      → (entry w.shm.users k).max_processes < 2 ^ 31
      → (v : World W) × (spawn_times n (record { current_session = some k }) w
          ≡ returned (
            min n ((entry w.shm.users k).max_processes - (entry w.shm.users k).current_processes),
            v,
          ))
  unfolding spawn_times
  spawn_times_lem zero k w q lt small = (w, ground arith)
  spawn_times_lem (suc n) k w q lt small = elim (dec_lt u.current_processes u.max_processes) [
    | yes p ↦
        let (v, e) =
          spawn_times_lem n k more (record { unlocked = q.unlocked; no_faults = q.no_faults })
            (omega (arith, length-set w.shm.users k (spawned u))) (ground (arith, same)) in
        (v, ground (arith, (spawn-at k w q).0 p, e, same))
    | no p ↦
        let (v, e) = spawn_times_lem n k w q lt small in (v, ground (arith, (spawn-at k w q).1, e))
  ]
    where
      u : UserSession
      u = entry w.shm.users k

      same : entry (set w.shm.users k (spawned u)) k ≡ spawned u
      same = get_or-set_self w.shm.users k (spawned u) zero_session lt

      more : World W
      more = record w { shm = write_user k (spawned u) w.shm }
