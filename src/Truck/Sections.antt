-- ===== src/Truck/Sections.antt =====
-- include/Truck.h: the critical sections of `run`, each in one step, when the dock mutex is free and
-- no system call fails.
use so_magazyn_firmy_spedycy.Base.{
  ℕ, ◌≡◌, not, ◌||◌, none, some, List, arith, Double, if◌then◌else◌,
}
use so_magazyn_firmy_spedycy.Shared.{CommandMessage}
use so_magazyn_firmy_spedycy.Manager.{
  World, Outcome, returned, blocked, IsDockQuiet, first_for, signal_of,
}
use so_magazyn_firmy_spedycy.Truck.{
  try_dock, depart, shut_down, end_shift, join, await_signal, step,
}
use so_magazyn_firmy_spedycy.Truck.Class.{
  Phase, joining, docked, depart_from, last_delivery, vacate, randomize_truck_specs, leaving, ended,
  is_end_work,
}

module _ {W : Type 0} ⦃d : Double W⦄ (my_pid : ℕ) (w : World W) (q : IsDockQuiet w) where
  pub try_dock-quiet :
      (a b : W)
      → try_dock my_pid a b w ≡ (
          if w.shm.dock_truck.is_present
          then returned (joining, w)
          else returned (
            docked,
            record w {
              shm = record w.shm { dock_truck = randomize_truck_specs my_pid a b w.shm.dock_truck };
            },
          ))
  unfolding try_dock
  try_dock-quiet a b = ground arith

  pub depart-quiet : depart my_pid w ≡ returned (tt, record w { shm = depart_from my_pid w.shm })
  unfolding depart
  depart-quiet = ground arith

  pub shut_down-quiet :
      shut_down my_pid w ≡ returned (tt, record w { shm = last_delivery my_pid w.shm })
  unfolding shut_down
  shut_down-quiet = ground arith

  pub end_shift-quiet : end_shift my_pid w ≡ returned (tt, record w { shm = vacate my_pid w.shm })
  unfolding end_shift
  end_shift-quiet = ground arith

  pub join-quiet :
      (a b : W)
      → join my_pid a b w ≡ (if w.shm.running then try_dock my_pid a b w else returned (leaving, w))
  unfolding join
  join-quiet a b = ground arith

  -- what a docked truck does with the message it takes
  abbrev pub obey : CommandMessage → List CommandMessage → Outcome (Phase × World W)
  obey m ms =
      if is_end_work (signal_of m.command_id) || not w.shm.running
      then returned (leaving, record w { shm = last_delivery my_pid w.shm; queue = ms })
      else returned (joining, record w { shm = depart_from my_pid w.shm; queue = ms })

  pub await_signal-none : first_for my_pid w.queue ≡ none → await_signal my_pid w ≡ blocked
  unfolding await_signal
  await_signal-none e = ground arith

  pub await_signal-some :
      (m : CommandMessage) (ms : List CommandMessage)
      → first_for my_pid w.queue ≡ some (m, ms)
      → await_signal my_pid w ≡ obey m ms
  unfolding await_signal
  await_signal-some m ms e = ground arith

  pub step-leaving :
      (a b : W)
      → step my_pid a b leaving w ≡ returned (ended, record w { shm = vacate my_pid w.shm })
  unfolding step end_shift
  step-leaving a b = ground arith
