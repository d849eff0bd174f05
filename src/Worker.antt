-- ===== src/Worker.antt =====
-- include/Worker.h: a worker's process. What the generators draw and what the stack holds are
-- arguments; sleeping and logging are left out.
pub mod Turns
pub mod Shift
use so_magazyn_firmy_spedycy.Base.{
  ℕ, zero, suc, Bool, true, false, not, List, [], ◌∷◌, Double, if◌then◌else◌,
}
use so_magazyn_firmy_spedycy.Shared.{
  SharedState, Package, PackageType, type_a, type_b, type_c, vol_a, vol_b, vol_c, status_normal,
}
use so_magazyn_firmy_spedycy.Manager.{World, M, pure, ◌>>=◌, ◌>>◌, get_state}
use so_magazyn_firmy_spedycy.Belt.{register_worker, unregister_worker, push}
use so_magazyn_firmy_spedycy.Session.{SessionManager, try_spawn_process, report_process_finished}

-- One turn of the loop: the roll of `type_dist`, the weight that the generator of the type draws,
-- what `Package p;` holds before its fields are set, and what the other processes do before the
-- next test of the loop's condition.
pub record Turn (W : Type 0) : Type 0 where
  pub type_roll : ℕ
  pub weight : W
  pub garbage : Package W
  pub others : World W → World W

-- The fields of `class Worker` but `manager`, and what its constructor and `stop` do.
pub record Worker : Type 0 where
  pub active : Bool
  pub worker_id : ℕ

abbrev pub new_worker : ℕ → Worker
new_worker id = record { active = true; worker_id = id }

unfoldable pub stop : Worker → Worker
stop worker = record worker { active = false }

module _ {W : Type 0} ⦃d : Double W⦄ where
  -- the `switch`; a case for each number that `type_dist` draws
  abbrev pub typed : ℕ → W → Package W → Package W
  typed zero w p = record p { type = type_a; volume = vol_a; weight = w }
  typed (suc zero) w p = record p { type = type_b; volume = vol_b; weight = w }
  typed (suc (suc zero)) w p = record p { type = type_c; volume = vol_c; weight = w }
  typed (suc (suc (suc n))) w p = p

  -- the package of a turn of process `my_pid`
  unfoldable pub new_package : ℕ → Turn W → Package W
  new_package my_pid turn =
      typed turn.type_roll turn.weight
        (record turn.garbage { creator_pid = my_pid; status = status_normal })

  -- the body of the loop
  unfoldable pub produce : ℕ → SessionManager → Turn W → M W (Unit {0})
  unfolding new_package
  produce my_pid sm turn = do
    spawned ← try_spawn_process sm
    if spawned
        then (push (new_package my_pid turn) >>= λ _. report_process_finished sm)
        else pure tt

  -- The loop. The list has a turn for each test of the condition that finds `active` set: after the
  -- last one `stop` has been called.
  unfoldable pub produce_loop : ℕ → SessionManager → List (Turn W) → M W (Unit {0})
  produce_loop my_pid sm [] w = pure tt w
  produce_loop my_pid sm (turn ∷ turns) w =
      let next = λ (w' : World W). produce_loop my_pid sm turns (turn.others w') in
      if w.shm.running then (produce my_pid sm turn >>= λ _. next) w else pure tt w

  -- `run`
  unfoldable pub work : ℕ → SessionManager → List (Turn W) → M W (Unit {0})
  work my_pid sm turns = do
    registered ← register_worker
    if registered then (do produce_loop my_pid sm turns; unregister_worker) else pure tt
