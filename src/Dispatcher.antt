-- ===== src/Dispatcher.antt =====
-- include/Dispatcher.h: packages from the belt to the truck at the dock. Dispatcher/Class is the class;
-- here are its methods with what the constructor of `Manager` passes.
pub mod Class
pub mod Loading
pub mod Verdict
pub mod Loop
pub mod Service
use so_magazyn_firmy_spedycy.Base.{ℕ, Bool, true, false, List, [], ◌∷◌, Double, ◌==◌, if◌then◌else◌}
use so_magazyn_firmy_spedycy.Shared.{Package}
use so_magazyn_firmy_spedycy.Manager.{
  World, blocked, M, pure, ◌>>=◌, ◌>>◌, lock_dock, unlock_dock, send_signal,
}
use so_magazyn_firmy_spedycy.Belt
use so_magazyn_firmy_spedycy.Belt.{pop}
use Class
use Class.{Dispatcher}

module _ {W : Type 0} where
  -- the `dispatcher` of the constructor of `Manager`
  unfoldable pub dispatcher : Dispatcher W
  unfolding Belt.belt lock_dock unlock_dock send_signal
  dispatcher = record {
    belt = Belt.belt;
    lock_dock_fn = lock_dock;
    unlock_dock_fn = unlock_dock;
    send_signal_fn = send_signal;
  }

module _ {W : Type 0} ⦃d : Double W⦄ where
  unfoldable pub try_load : Package W → M W Bool
  unfolding dispatcher Class.try_load
  try_load = Class.try_load dispatcher

  -- The loop. Each `other` is what the other processes do while the dispatcher sleeps after a turn;
  -- when the list ends, it sleeps on.
  unfoldable pub load_loop : List (World W → World W) → Package W → M W Bool
  load_loop [] pkg w =
      if w.shm.running
      then (try_load pkg >>= λ loaded. if loaded then pure true else (λ w'. blocked)) w
      else pure false w
  load_loop (other ∷ others) pkg w =
      let again = λ (w' : World W). load_loop others pkg (other w') in
      if w.shm.running
      then (try_load pkg >>= λ loaded. if loaded then pure true else again) w
      else pure false w

  unfoldable pub process_next_package : List (World W → World W) → M W (Unit {0})
  process_next_package others = do
    pkg ← pop
    if pkg.id == 0 then pure tt else (load_loop others pkg >>= λ loaded. pure tt)

  -- `run`, with a pair for each turn: what the other processes do before the loop tests its condition,
  -- and what they do while the loading loop sleeps. When the list ends, the next turn is still to come.
  unfoldable pub run : List ((World W → World W) × List (World W → World W)) → M W (Unit {0})
  unfolding load_loop process_next_package
  run [] w = blocked
  run ((meanwhile, others) ∷ turns) w =
      let turn = λ (w' : World W). (process_next_package others >>= λ _. run turns) w' in
      if (meanwhile w).shm.running then turn (meanwhile w) else pure tt (meanwhile w)
