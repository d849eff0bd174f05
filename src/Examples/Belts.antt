-- ===== src/Examples/Belts.antt =====
-- The belt: two packages in, one out.
use so_magazyn_firmy_spedycy.Base.{
  ℕ, ◌≡◌, refl, none, some, List, [], ◌∷◌, ◌++◌, map, arith, micro_double,
}
use so_magazyn_firmy_spedycy.Shared.{Package}
use so_magazyn_firmy_spedycy.Manager.{World, returned, blocked, eintr, lock_belt, init_world}
use so_magazyn_firmy_spedycy.Belt.{push, run}
use so_magazyn_firmy_spedycy.Belt.Queue
use so_magazyn_firmy_spedycy.Belt.Queue.{Use, put, get, puts, is_balanced}
use so_magazyn_firmy_spedycy.Belt.Refine.{view, observe, run_refines, init-IsValid}
use so_magazyn_firmy_spedycy.Belt.Fifo.{run_fifo}
use so_magazyn_firmy_spedycy.Belt.Interrupt.{IsHeld, push_interrupted}
use so_magazyn_firmy_spedycy.Belt.Class.{numbered, place}
use so_magazyn_firmy_spedycy.Examples.Data.{small_package, start}

abbrev two_in_one_out : List (Use ℕ)
two_in_one_out = put small_package ∷ put small_package ∷ get ∷ []

run_refines_example : observe (run two_in_one_out start) ≡ Queue.run two_in_one_out (view start)
run_refines_example = run_refines two_in_one_out start init-IsValid

run_fifo_example :
    (out : List (Package ℕ)) × (w : World ℕ) × (run two_in_one_out init_world ≡ returned (out, w))
    × (map (λ p. p.id) (out ++ (view w).items) ≡ 1 ∷ 2 ∷ [])
unfolding puts is_balanced
run_fifo_example = run_fifo two_in_one_out refl (omega arith)

-- A process that registers is behind the lock.
abbrev held : World ℕ
held = record start { sem = record start.sem { mutex_belt = 0 } }

held-IsHeld : IsHeld held
unfolding init_world
held-IsHeld = record { taken = refl; else_valid = init-IsValid }

push_interrupted_example :
    (lock_belt held ≡ blocked)
    × (w' v : World ℕ) × (push small_package (record held { faults = none ∷ some eintr ∷ [] })
        ≡ returned (numbered small_package held.shm, w'))
    × (w'.shm ≡ place small_package held.shm)
    × (lock_belt w' ≡ returned (tt, v))
unfolding init_world
push_interrupted_example = push_interrupted small_package held held-IsHeld (omega arith)
