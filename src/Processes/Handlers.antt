-- ===== src/Processes/Handlers.antt =====
-- src/main*.cpp: the signal handlers, and the worker's process with the signals that it gets.
use so_magazyn_firmy_spedycy.Base.{
  ℕ, ◌≡◌, refl, ap, Bool, true, false, ◌&&◌, Option, none, some, List, [], ◌∷◌, ◌++◌, map, Double,
  ◌==◌, if◌then◌else◌,
}
use so_magazyn_firmy_spedycy.Manager.{World, blocked, M, pure, ◌>>=◌, ◌>>◌, bind-cong, bind-same}
use so_magazyn_firmy_spedycy.Belt.{register_worker, unregister_worker}
use so_magazyn_firmy_spedycy.Session.{SessionManager}
use so_magazyn_firmy_spedycy.Worker.{Worker, Turn, new_worker, stop, produce, produce_loop, work}

abbrev pub sigint : ℕ
sigint = 2

abbrev pub sigterm : ℕ
sigterm = 15

-- The handlers of main.cpp, main_belt.cpp, main_express.cpp and main_truck.cpp set one flag.
unfoldable pub handle_sigint : ℕ → Bool → Bool
handle_sigint signum stop_requested = true

unfoldable pub handle_belt_signal : ℕ → Bool → Bool
handle_belt_signal signum stop_flag = true

unfoldable pub handle_express_signal : ℕ → Bool → Bool
handle_express_signal signum stop_requested = true

unfoldable pub handle_truck_signal : ℕ → Bool → Bool
handle_truck_signal signum truck_stop = true

-- main_terminal.cpp; its message is left out.
unfoldable pub handle_terminal_signal : ℕ → Bool → Bool
handle_terminal_signal signal keep_running = if signal == sigint then false else keep_running

-- the globals of main_worker.cpp; a null pointer is `none`
pub record WorkerGlobals : Type 0 where
  pub should_stop : Bool
  pub global_worker_ptr : Option Worker

abbrev pub no_worker : WorkerGlobals
no_worker = record { should_stop = false; global_worker_ptr = none }

abbrev stop_any : Option Worker → Option Worker
stop_any none = none
stop_any (some worker) = some (stop worker)

unfoldable pub handle_worker_signal : ℕ → WorkerGlobals → WorkerGlobals
unfolding stop
handle_worker_signal signum g = record g {
  should_stop = true;
  global_worker_ptr = stop_any g.global_worker_ptr;
}

unfoldable pub deliver : List ℕ → WorkerGlobals → WorkerGlobals
unfolding handle_worker_signal
deliver [] g = g
deliver (signum ∷ signals) g = deliver signals (handle_worker_signal signum g)

-- `Worker worker(…); global_worker_ptr = &worker;`
abbrev pub make_worker : ℕ → WorkerGlobals → WorkerGlobals
make_worker id g = record g { global_worker_ptr = some (new_worker id) }

abbrev is_active : Option Worker → Bool
is_active none = false
is_active (some worker) = worker.active

stop_any-inactive : (p : Option Worker) → is_active (stop_any p) ≡ false
unfolding stop
stop_any-inactive none = refl
stop_any-inactive (some worker) = refl

deliver-stopped :
    (signum : ℕ) (signals : List ℕ) (g : WorkerGlobals)
    → is_active (deliver (signum ∷ signals) g).global_worker_ptr ≡ false
unfolding deliver handle_worker_signal
deliver-stopped signum [] g = stop_any-inactive g.global_worker_ptr
deliver-stopped signum (next ∷ signals) g =
    deliver-stopped next signals (handle_worker_signal signum g)

module _ {W : Type 0} ⦃d : Double W⦄ where
  -- The loop of `Worker::run`, with the signals that arrive before each test of its condition. When the list
  -- ends, the next test is still to come.
  unfoldable pub signalled_loop :
      ℕ → SessionManager → WorkerGlobals → List (List ℕ × Turn W) → M W (Unit {0})
  unfolding deliver
  signalled_loop my_pid sm g [] w = blocked
  signalled_loop my_pid sm g ((signals, turn) ∷ rounds) w =
      let h = deliver signals g in
      let next = λ (w' : World W). signalled_loop my_pid sm h rounds (turn.others w') in
      if is_active h.global_worker_ptr && w.shm.running
      then (produce my_pid sm turn >>= λ _. next) w
      else pure tt w

  -- `main` from where the handlers are set to the end of `worker.run()`: the signals that arrive before
  -- the worker is made, and those that arrive then
  unfoldable pub signalled_work :
      ℕ → ℕ → SessionManager → List ℕ → List (List ℕ × Turn W) → M W (Unit {0})
  unfolding signalled_loop deliver
  signalled_work id my_pid sm early rounds =
      let g = make_worker id (deliver early no_worker) in
      (do
        registered ← register_worker
        if registered then (do signalled_loop my_pid sm g rounds; unregister_worker) else pure tt)

  abbrev quiet : Turn W → List ℕ × Turn W
  quiet turn = ([], turn)

  signalled_loop_lem :
      (my_pid : ℕ) (sm : SessionManager) (g : WorkerGlobals) (turns : List (Turn W)) (signum : ℕ)
      (signals : List ℕ) (turn : Turn W) (rounds : List (List ℕ × Turn W)) (w : World W)
      → is_active g.global_worker_ptr ≡ true
      → signalled_loop my_pid sm g (map quiet turns ++ (signum ∷ signals, turn) ∷ rounds) w
        ≡ produce_loop my_pid sm turns w
  unfolding signalled_loop produce_loop
  signalled_loop_lem my_pid sm g [] signum signals turn rounds w h =
      rw (deliver-stopped signum signals g) refl
  signalled_loop_lem my_pid sm g (t ∷ turns) signum signals turn rounds w h = rw h (
      ap (λ o. if w.shm.running then o else pure tt w)
        (bind-cong (produce my_pid sm t) _ _ w
          (λ _ v. signalled_loop_lem my_pid sm g turns signum signals turn rounds (t.others v) h)))

  -- Whatever signals arrive before `main` has made its worker, they have no effect; the first later one
  -- ends the loop at the next test of its condition, and the worker leaves the belt: the process
  -- does what the worker does in the turns before it.
  pub signalled_work_lem :
      (id my_pid : ℕ) (sm : SessionManager) (early : List ℕ) (turns : List (Turn W)) (signum : ℕ)
      (signals : List ℕ) (turn : Turn W) (rounds : List (List ℕ × Turn W)) (w : World W)
      → signalled_work id my_pid sm early (map quiet turns ++ (signum ∷ signals, turn) ∷ rounds) w
        ≡ work my_pid sm turns w
  unfolding signalled_work work
  signalled_work_lem id my_pid sm early turns signum signals turn rounds w =
      bind-cong register_worker _ _ w on
    where
      rest : List (List ℕ × Turn W)
      rest = map quiet turns ++ (signum ∷ signals, turn) ∷ rounds

      g : WorkerGlobals
      g = make_worker id (deliver early no_worker)

      on :
          (registered : Bool) (v : World W)
          → (if registered then (signalled_loop my_pid sm g rest >> unregister_worker) else pure tt)
              v
            ≡ (if registered then (produce_loop my_pid sm turns >> unregister_worker) else pure tt)
                v
      on true v =
          bind-same (signalled_loop my_pid sm g rest) (produce_loop my_pid sm turns)
            (λ _. unregister_worker) v
            (signalled_loop_lem my_pid sm g turns signum signals turn rounds v refl)
      on false v = refl
