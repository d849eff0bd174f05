-- ===== src/Fleet/Stale.antt =====
-- include/Dispatcher.h and include/Truck.h together: a departure signal for each attempt, and one
-- truck that obeys them all.
use mathlib.Core.List.{append_assoc}
use so_magazyn_firmy_spedycy.Base.{
  ℕ, ◌≡◌, refl, ◌∙◌, true, false, none, some, List, [], ◌∷◌, ◌++◌, arith, Double, int_inc,
}
use so_magazyn_firmy_spedycy.Shared.{Package, CommandMessage, signal_departure, signal_code}
use so_magazyn_firmy_spedycy.Manager.{World, returned, IsDockQuiet, M, ◌>>=◌, first_for, signal_of}
use so_magazyn_firmy_spedycy.Truck.{await_signal, join}
use so_magazyn_firmy_spedycy.Truck.Class.{Phase, joining, docked, complete, randomize_truck_specs}
use so_magazyn_firmy_spedycy.Truck.Sections.{await_signal-some, join-quiet, try_dock-quiet}
use so_magazyn_firmy_spedycy.Dispatcher.{try_load}
use so_magazyn_firmy_spedycy.Dispatcher.Class.{fits}
use so_magazyn_firmy_spedycy.Dispatcher.Loading.{try_load_lem, departure_for}

-- The first message for a process stands behind those for others.
pub first_for-append :
    (pid : ℕ) (queue rest : List CommandMessage) (m : CommandMessage)
    → first_for pid queue ≡ none
    → m.mtype ≡ pid
    → first_for pid (queue ++ m ∷ rest) ≡ some (m, queue ++ rest)
unfolding first_for
first_for-append pid [] rest m e h = ground arith
first_for-append pid (n ∷ queue) rest m e h = ground (arith, first_for-append pid queue rest m)

module _ {W : Type 0} ⦃d : Double W⦄ where
  -- Two attempts of the dispatcher before the truck reacts, then the truck's next turns.
  abbrev pub two_attempts : Package W → ℕ → W → W → M W Phase
  two_attempts pkg pid a b = try_load pkg >>= λ _.
      try_load pkg >>= λ _. await_signal pid >>= λ _. join pid a b >>= λ _. await_signal pid

  -- An attempt that fails sends one more message.
  refused :
      (pkg : Package W) (w : World W)
      → IsDockQuiet w
      → w.shm.dock_truck.is_present ≡ true
      → fits pkg w.shm.dock_truck ≡ false
      → try_load pkg w ≡ returned (false, record w { queue = w.queue ++ departure_for w.shm ∷ [] })
  refused pkg w q here big = ground (arith, try_load_lem pkg w q)

  -- A docked truck that finds its departure message leaves.
  dismissed :
      (pid : ℕ) (w : World W) (m : CommandMessage) (ms : List CommandMessage)
      → IsDockQuiet w
      → w.shm.running ≡ true
      → w.shm.dock_truck.id ≡ pid
      → signal_of m.command_id ≡ signal_departure
      → first_for pid w.queue ≡ some (m, ms)
      → await_signal pid w ≡ returned (joining, record w { shm = complete w.shm; queue = ms })
  dismissed pid w m ms q up at dep e = ground (arith, await_signal-some pid w q m ms e)

  -- An empty dock is taken.
  taken :
      (pid : ℕ) (a b : W) (w : World W)
      → IsDockQuiet w
      → w.shm.running ≡ true
      → w.shm.dock_truck.is_present ≡ false
      → join pid a b w
        ≡ returned (
          docked,
          record w {
            shm = record w.shm { dock_truck = randomize_truck_specs pid a b w.shm.dock_truck };
          },
        )
  taken pid a b w q up gone = ground (arith, join-quiet pid w q a b, try_dock-quiet pid w q a b)

  -- With the dock mutex free, no failing call and no message waiting for the truck: if the dispatcher tries a package that does not fit twice before the truck at the dock takes its
  -- message, the truck leaves, docks again, and is sent off at once: empty, and counted as completed
  -- a second time.
  pub stale_departure :
      (pkg : Package W) (pid : ℕ) (a b : W) (w : World W)
      → IsDockQuiet w
      → w.shm.running ≡ true
      → w.shm.dock_truck.is_present ≡ true
      → w.shm.dock_truck.id ≡ pid
      → fits pkg w.shm.dock_truck ≡ false
      → first_for pid w.queue ≡ none
      → (v : World W) × (two_attempts pkg pid a b w ≡ returned (joining, v))
        × (v.shm.dock_truck.current_load ≡ 0)
        × (v.shm.dock_truck.is_present ≡ false)
        × (v.shm.trucks_completed ≡ int_inc (int_inc w.shm.trucks_completed))
  unfolding signal_of signal_code randomize_truck_specs
  stale_departure pkg pid a b w q up here at big none_yet = (
    w5,
    ground (
      arith,
      refused pkg w q here big,
      refused pkg w1 (quiet w1 refl refl) here big,
      dismissed pid w2 m (w.queue ++ m ∷ []) (quiet w2 refl refl) up at refl first,
      taken pid a b w3 (quiet w3 refl refl) up refl,
      dismissed pid w4 m (w.queue ++ []) (quiet w4 refl refl) up refl refl second,
    ),
    refl,
    refl,
    refl,
  )
    where
      m : CommandMessage
      m = departure_for w.shm

      quiet : (u : World W) → u.sem ≡ w.sem → u.faults ≡ w.faults → IsDockQuiet u
      quiet u hs hf = record { dock_free = ground arith; no_faults = hf ∙ q.no_faults }

      w1 : World W
      w1 = record w { queue = w.queue ++ m ∷ [] }

      w2 : World W
      w2 = record w { queue = (w.queue ++ m ∷ []) ++ m ∷ [] }

      w3 : World W
      w3 = record w { shm = complete w.shm; queue = w.queue ++ m ∷ [] }

      w4 : World W
      w4 = record w3 {
        shm = record w3.shm { dock_truck = randomize_truck_specs pid a b w3.shm.dock_truck };
      }

      w5 : World W
      w5 = record w4 { shm = complete w4.shm; queue = w.queue ++ [] }

      first : first_for pid w2.queue ≡ some (m, w.queue ++ m ∷ [])
      first =
          rw (append_assoc w.queue (m ∷ []) (m ∷ []))
            (first_for-append pid w.queue (m ∷ []) m none_yet at)

      second : first_for pid w4.queue ≡ some (m, w.queue ++ [])
      second = first_for-append pid w.queue [] m none_yet at
