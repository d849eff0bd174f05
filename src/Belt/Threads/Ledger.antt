-- ===== src/Belt/Threads/Ledger.antt =====
-- include/Belt.h: the packages of all processes on one belt, while they interleave.
use mathlib.Core.List.{append_assoc, append-nil}
use so_magazyn_firmy_spedycy.Base.{
  ℕ, suc, ◌+◌, ◌^◌, ◌≤◌, ◌<◌, ◌≡◌, refl, sym, ap, ◌∙◌, arith, List, [], ◌∷◌, ◌++◌, length, Double,
  int_inc, length-append, le-sum_below,
}
use so_magazyn_firmy_spedycy.Shared.{Package, zero_package}
use so_magazyn_firmy_spedycy.Manager.{
  World, returned, init_world, wait_for_empty_slot, wait_for_package,
}
use so_magazyn_firmy_spedycy.Belt.Class.{numbered}
use so_magazyn_firmy_spedycy.Belt.Queue.{View}
use so_magazyn_firmy_spedycy.Belt.Refine.{view}
use so_magazyn_firmy_spedycy.Belt.Slots.{length-slots, slots-push, slots-pop}
use so_magazyn_firmy_spedycy.Belt.Threads.{
  Place, saw_push, saw_pop, placed, took, has_read, advance, Threads, Move, calls_push, calls_pop,
  calls, goes_on, elsewhere, Reach, init_threads,
}
use so_magazyn_firmy_spedycy.Belt.Threads.Duties.{perform-KeepsBelt}
use so_magazyn_firmy_spedycy.Belt.Threads.Invariant.{holds_slot, holds_item, IsFresh, Agrees}
use so_magazyn_firmy_spedycy.Belt.Threads.Keeping.{Reach-Inv}

-- the package that a process puts down when it goes from one place to the next, as its caller gave it
abbrev put_down : {W : Type 0} → Place W → Place W → List (Package W)
put_down (saw_push pkg seen) (placed p) = pkg ∷ []
put_down _ _ = []

-- the package that it takes up, as it will hand it to its caller
abbrev taken_up : {W : Type 0} → Place W → Place W → List (Package W)
taken_up (saw_pop seen) (took p) = p ∷ []
taken_up _ _ = []

-- packages with the numbers from `n` on
abbrev pub numbered_from : {W : Type 0} → ℕ → List (Package W) → List (Package W)
numbered_from n [] = []
numbered_from n (p ∷ ps) = record p { id = n } ∷ numbered_from (suc n) ps

numbered_from-append :
    {W : Type 0} (n : ℕ) (ps qs : List (Package W))
    → numbered_from n (ps ++ qs) ≡ numbered_from n ps ++ numbered_from (n + length ps) qs
numbered_from-append n [] qs = ground arith
numbered_from-append n (p ∷ ps) qs = ground (arith, numbered_from-append (suc n) ps qs)

put_down-one : {W : Type 0} (p q : Place W) → length (put_down p q) ≤ 1
put_down-one p q = ground arith

module _ {W : Type 0} ⦃d : Double W⦄ where
  abbrev put_by : {n : ℕ} {s t : Threads W} → Move n s t → List (Package W)
  put_by {n} {s} (goes_on i {p} h e) = put_down (s.at i) p
  put_by _ = []

  abbrev taken_by : {n : ℕ} {s t : Threads W} → Move n s t → List (Package W)
  taken_by {n} {s} (goes_on i {p} h e) = taken_up (s.at i) p
  taken_by _ = []

  -- A state that can be reached, with the packages that were put down on the way, in this order, and those that
  -- were taken up.
  pub data Ledger (n : ℕ) : Threads W → List (Package W) → List (Package W) → Type 0 where
    opened : Ledger n init_threads [] []
    entered :
        {s t : Threads W} {put taken : List (Package W)}
        → Ledger n s put taken
        → (move : Move n s t) → Ledger n t (put ++ put_by move) (taken ++ taken_by move)

  pub Ledger-Reach :
      {n : ℕ} {s : Threads W} {put taken : List (Package W)} → Ledger n s put taken → Reach n s
  Ledger-Reach opened = Reach.start
  Ledger-Reach (entered l move) = Reach.next (Ledger-Reach l) move

  -- what a piece does to the queue and its counter
  record Books (put taken : List (Package W)) (v v' : View W) : Type 0 where
    items : v.items ++ numbered_from (int_inc v.created) put ≡ taken ++ v'.items
    created : v'.created ≡ elim put [ [] ↦ v.created | p ∷ ps ↦ int_inc v.created ]

  same-Books : {v v' : View W} → v' ≡ v → Books [] [] v v'
  same-Books {v} {v'} e = record {
    items = append-nil v.items ∙ ap (λ u. u.items) (sym e);
    created = ap (λ u. u.created) e;
  }

  advance-Books :
      {m e f : ℕ} (p q : Place W) (w v : World W)
      → Agrees m e f w
      → IsFresh p w
      → holds_slot p ≤ e
      → holds_item p ≤ f
      → advance p w ≡ returned (q, v)
      → Books (put_down p q) (taken_up p q) (view w) (view v)
  unfolding advance
  advance-Books (saw_push pkg seen) q w v a fresh hs hi h = ground (
    arith,
    fresh,
    length-slots seen.belt seen.head seen.current_items_count,
    slots-push seen.belt (numbered pkg seen) seen.head seen.current_items_count,
  )
  advance-Books (saw_pop seen) q w v a fresh hs hi h = ground (
    arith,
    fresh,
    append-nil (view w).items,
    slots-pop seen.belt zero_package seen.head seen.current_items_count,
  )
  advance-Books (has_read duty seen) q w v a fresh hs hi h =
      same-Books (ground (arith, fresh, perform-KeepsBelt duty seen))
  advance-Books p q w v a fresh hs hi h = same-Books (ground arith)

  move-Books :
      {n : ℕ} {s t : Threads W}
      → Reach n s
      → (move : Move n s t) → Books (put_by move) (taken_by move) (view s.world) (view t.world)
  unfolding wait_for_empty_slot wait_for_package
  move-Books r (calls_push i pkg h out e) = same-Books (ground arith)
  move-Books r (calls_pop i h out e) = same-Books (ground arith)
  move-Books r (calls i duty h out) = same-Books refl
  move-Books {n} {s} r (goes_on i {p} {w} h e) =
      advance-Books (s.at i) p s.world w (Reach-Inv r).agrees ((Reach-Inv r).fresh i h)
        (le-sum_below holds_slot n s.at i h) (le-sum_below holds_item n s.at i h) e
  move-Books r (elsewhere a) = same-Books (ground (arith, a.memory))

  put_by-one : {n : ℕ} {s t : Threads W} (move : Move n s t) → length (put_by move) ≤ 1
  put_by-one {n} {s} (goes_on i {p} h e) = put_down-one (s.at i) p
  put_by-one move = omega arith

  -- What is put down and taken up so far, and the state of the queue.
  record Accounted (put taken : List (Package W)) (v : View W) : Type 0 where
    pub all : taken ++ v.items ≡ numbered_from 1 put
    pub created : v.created ≡ length put

  counts :
      (put ins : List (Package W)) {outs : List (Package W)} {v v' : View W}
      → length ins ≤ 1
      → v.created ≡ length put
      → length (put ++ ins) < 2 ^ 31
      → Books ins outs v v'
      → v'.created ≡ length (put ++ ins)
  counts put [] one at small b = ground (arith, b.created, append-nil put)
  counts put (p ∷ []) one at small b = ground (arith, b.created, length-append put (p ∷ []))
  counts put (p ∷ q ∷ ps) one at small b = absurd (omega (arith, one))

  Books-Accounted :
      {put taken ins outs : List (Package W)} {v v' : View W}
      → length ins ≤ 1
      → length (put ++ ins) < 2 ^ 31
      → Accounted put taken v
      → Books ins outs v v'
      → Accounted (put ++ ins) (taken ++ outs) v'
  Books-Accounted {put} {taken} {ins} {outs} {v} {v'} one small a b = record {
    all =
        append_assoc taken outs v'.items
        ∙ ap (λ l. taken ++ l) (sym b.items)
        ∙ sym (append_assoc taken v.items (numbered_from (int_inc v.created) ins))
        ∙ ap (λ l. l ++ numbered_from (int_inc v.created) ins) a.all
        ∙ ap (λ m. numbered_from 1 put ++ numbered_from m ins) next_number
        ∙ sym (numbered_from-append 1 put ins);
    created = counts put ins one a.created small b;
  }
    where
      next_number : int_inc v.created ≡ 1 + length put
      next_number = omega (arith, a.created, small, length-append put ins)

  accounts :
      {n : ℕ} {s : Threads W} {put taken : List (Package W)}
      → Ledger n s put taken
      → length put < 2 ^ 31
      → Accounted put taken (view s.world)
  unfolding init_world
  accounts opened small = record { all = refl; created = refl }
  accounts (entered {put} l move) small =
      Books-Accounted (put_by-one move) small
        (accounts l (omega (arith, small, length-append put (put_by move))))
        (move-Books (Ledger-Reach l) move)

  -- While processes interleave on the belt in any order, as long as fewer than 2^31 packages have been put down:
  -- the packages taken up, in their order, followed by those on the belt, are exactly those put
  -- down, in their order, each as its caller gave it but for its number, and numbered 1, 2, 3 and on.
  pub all_numbered :
      {n : ℕ} {s : Threads W} {put taken : List (Package W)}
      → Ledger n s put taken
      → length put < 2 ^ 31
      → taken ++ (view s.world).items ≡ numbered_from 1 put
  all_numbered l small = (accounts l small).all
