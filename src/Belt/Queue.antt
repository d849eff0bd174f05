-- ===== src/Belt/Queue.antt =====
-- What the belt promises: a queue of at most `max_belt_capacity_k` packages, oldest first, that
-- numbers the packages as they arrive. An operation that cannot be served waits.
use so_magazyn_firmy_spedycy.Base.{
  ℕ, suc, ◌+◌, ◌-◌, Bool, true, ◌&&◌, List, [], ◌∷◌, ◌++◌, length, Double, ltb, int_inc,
  if◌then◌else◌,
}
use so_magazyn_firmy_spedycy.Shared.{Package, zero_package, max_belt_capacity_k}
use so_magazyn_firmy_spedycy.Manager.{Outcome, returned, blocked, exited}

pub record View (W : Type 0) : Type 0 where
  pub items : List (Package W)
  pub created : ℕ

module _ {W : Type 0} where
  abbrev pub stamped : Package W → View W → Package W
  stamped pkg v = record pkg { id = int_inc v.created }

  unfoldable pub push : Package W → View W → Outcome (Package W × View W)
  push pkg v =
      if ltb (length v.items) max_belt_capacity_k
      then returned (
        stamped pkg v,
        record { items = v.items ++ stamped pkg v ∷ []; created = int_inc v.created },
      )
      else blocked

  abbrev pop_items : List (Package W) → ℕ → Outcome (Package W × View W)
  pop_items [] created = blocked
  pop_items (p ∷ ps) created = returned (p, record { items = ps; created = created })

  unfoldable pub pop : View W → Outcome (Package W × View W)
  pop v = pop_items v.items v.created

-- a use of the belt: some worker pushes, or the dispatcher pops
pub data Use (W : Type 0) : Type 0 where
  put : Package W → Use W
  get : Use W

module _ {W : Type 0} where
  abbrev pub and_then :
      Package W → Outcome (List (Package W) × View W) → Outcome (List (Package W) × View W)
  and_then p (returned (ps, v)) = returned (p ∷ ps, v)
  and_then p blocked = blocked
  and_then p (exited e) = exited e

  -- the packages popped by a sequence of uses, in order
  unfoldable pub run : List (Use W) → View W → Outcome (List (Package W) × View W)
  run [] v = returned ([], v)
  run (put p ∷ uses) v = elim (push p v) [
    | returned (_, v') ↦ run uses v'
    | blocked ↦ blocked
    | exited e ↦ exited e
  ]
  run (get ∷ uses) v = elim (pop v) [
    | returned (p, v') ↦ and_then p (run uses v')
    | blocked ↦ blocked
    | exited e ↦ exited e
  ]

  -- the packages pushed, with the numbers that follow `n`
  unfoldable pub arrivals : List (Use W) → ℕ → List (Package W)
  arrivals [] n = []
  arrivals (put p ∷ uses) n = record p { id = int_inc n } ∷ arrivals uses (int_inc n)
  arrivals (get ∷ uses) n = arrivals uses n

  -- Starting with `n` packages, no push finds ten on the belt and no pop finds none.
  unfoldable pub is_balanced : List (Use W) → ℕ → Bool
  is_balanced [] n = true
  is_balanced (put p ∷ uses) n = ltb n max_belt_capacity_k && is_balanced uses (n + 1)
  is_balanced (get ∷ uses) n = ltb 0 n && is_balanced uses (n - 1)

  unfoldable pub puts : List (Use W) → ℕ
  puts [] = 0
  puts (put p ∷ uses) = suc (puts uses)
  puts (get ∷ uses) = puts uses

-- The same queue for a caller who does not wait: a package that finds no room is handed back, and an
-- empty queue gives the empty package.
module _ {W : Type 0} ⦃d : Double W⦄ where
  unfoldable pub offer : Package W → View W → Package W × View W
  offer pkg v =
      if ltb (length v.items) max_belt_capacity_k
      then (
        stamped pkg v,
        record { items = v.items ++ stamped pkg v ∷ []; created = int_inc v.created },
      )
      else (pkg, v)

  abbrev poll_items : List (Package W) → ℕ → Package W × View W
  poll_items [] created = (zero_package, record { items = []; created = created })
  poll_items (p ∷ ps) created = (p, record { items = ps; created = created })

  unfoldable pub poll : View W → Package W × View W
  poll v = poll_items v.items v.created

  abbrev pub answer : Package W → List (Package W) × View W → List (Package W) × View W
  answer q (ps, last) = (q ∷ ps, last)

  -- what each use hands back, in order, and the queue that is left
  unfoldable pub serve : List (Use W) → View W → List (Package W) × View W
  serve [] v = ([], v)
  serve (put p ∷ uses) v = let (q, v') = offer p v in answer q (serve uses v')
  serve (get ∷ uses) v = let (q, v') = poll v in answer q (serve uses v')
