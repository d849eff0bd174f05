-- ===== src/Examples/Guards.antt =====
-- The belt under callbacks that fail to wait.
use so_magazyn_firmy_spedycy.Base.{ℕ, ◌≡◌, refl, some, [], ◌∷◌, arith, micro_double}
use so_magazyn_firmy_spedycy.Shared.{zero_package, init_state}
use so_magazyn_firmy_spedycy.Manager.{World, eintr, init_world}
use so_magazyn_firmy_spedycy.Belt
use so_magazyn_firmy_spedycy.Belt.Class
use so_magazyn_firmy_spedycy.Belt.Queue
use so_magazyn_firmy_spedycy.Belt.Queue.{Use, put, get}
use so_magazyn_firmy_spedycy.Belt.Ring.{IsRing, shown}
use so_magazyn_firmy_spedycy.Belt.Guarded.{run-serves}
use so_magazyn_firmy_spedycy.Belt.Wiring.{belt-IsPassive}
use so_magazyn_firmy_spedycy.Examples.Data.{start}

-- a pop of an empty belt, whose wait a signal interrupts
abbrev interrupted : World ℕ
interrupted = record start { faults = some eintr ∷ [] }

abbrev after : World ℕ
after = record start { sem = record start.sem { full_slots = 1 } }

run-serves_example :
    (Queue.serve (get ∷ []) (shown interrupted.shm) ≡ (zero_package ∷ [], shown after.shm))
    × IsRing after.shm
unfolding Belt.belt Class.pop init_world init_state
run-serves_example =
    run-serves Belt.belt belt-IsPassive refl (get ∷ []) interrupted {ps = zero_package ∷ []}
      {v = after}
      (record { size = refl; head_in = omega arith; count_in = omega arith; tail_at = refl }) refl
