-- ===== src/Belt/Threads/Beside.antt =====
-- A piece of one process, beside the claims that the others have on the belt.
use so_magazyn_firmy_spedycy.Base.{
  ℕ, ◌+◌, ◌-◌, ◌<◌, ◌≢◌, ◌≡◌, ℕ_discrete, arith, Double, length-set, update, sum_below,
  sum_below-update, le-sum_below, subst,
}
use so_magazyn_firmy_spedycy.Shared.{Package, zero_package}
use so_magazyn_firmy_spedycy.Manager.{World, returned, wait_for_empty_slot, wait_for_package}
use so_magazyn_firmy_spedycy.Belt.Class.{numbered}
use so_magazyn_firmy_spedycy.Belt.Threads.{
  Place, outside, has_slot, in_push, saw_push, saw_pop, placed, found_full, pushed, pushed_back,
  has_package, in_pop, took, found_empty, popped, popped_none, about_to, on_duty, has_read,
  relieved, advance, Threads,
}
use so_magazyn_firmy_spedycy.Belt.Threads.Duties.{perform-KeepsBelt}
use so_magazyn_firmy_spedycy.Belt.Threads.Invariant.{
  locked, holds_slot, holds_item, IsRegular, IsFresh, Agrees, Inv,
}

module _ {W : Type 0} ⦃d : Double W⦄ where
  -- A place with its three claims added to those of the other processes.
  abbrev pub Beside : ℕ → ℕ → ℕ → Place W → World W → Type 0
  Beside m e f p w =
      Agrees (m + locked p) (e + holds_slot p) (f + holds_item p) w × IsRegular p × IsFresh p w

  pub push-Beside :
      (m e f : ℕ) (pkg : Package W) (w : World W) {w' : World W}
      → Beside m e f outside w
      → wait_for_empty_slot w ≡ returned (tt, w')
      → Beside m e f (has_slot pkg) w'
  unfolding wait_for_empty_slot
  push-Beside m e f pkg w (a, r, _) h = (ground arith, tt, tt)

  pub pop-Beside :
      (m e f : ℕ) (w : World W) {w' : World W}
      → Beside m e f outside w
      → wait_for_package w ≡ returned (tt, w')
      → Beside m e f has_package w'
  unfolding wait_for_package
  pop-Beside m e f w (a, r, _) h = (ground arith, tt, tt)

  pub advance-Beside :
      (m e f : ℕ) (p : Place W) (w : World W) {p' : Place W} {w' : World W}
      → Beside m e f p w
      → advance p w ≡ returned (p', w')
      → Beside m e f p' w'
  unfolding advance
  advance-Beside m e f outside w b h = ground arith
  advance-Beside m e f (has_slot pkg) w b h = ground arith
  advance-Beside m e f (in_push pkg) w b h = ground arith
  advance-Beside m e f (saw_push pkg seen) w b h =
      ground (arith, length-set seen.belt seen.tail (numbered pkg seen))
  advance-Beside m e f (placed pkg) w b h = ground arith
  advance-Beside m e f (found_full pkg) w b h = elim b.1 [ ]
  advance-Beside m e f (pushed pkg) w b h = ground arith
  advance-Beside m e f (pushed_back pkg) w b h = elim b.1 [ ]
  advance-Beside m e f has_package w b h = ground arith
  advance-Beside m e f in_pop w b h = ground arith
  advance-Beside m e f (saw_pop seen) w b h =
      ground (arith, length-set seen.belt seen.head zero_package)
  advance-Beside m e f (took pkg) w b h = ground arith
  advance-Beside m e f found_empty w b h = elim b.1 [ ]
  advance-Beside m e f (popped pkg) w b h = ground arith
  advance-Beside m e f popped_none w b h = elim b.1 [ ]
  advance-Beside m e f (about_to duty) w b h = ground arith
  advance-Beside m e f (on_duty duty) w b h = ground arith
  advance-Beside m e f (has_read duty seen) w b h = ground (arith, perform-KeepsBelt duty seen)
  advance-Beside m e f (relieved duty) w b h = ground arith

  -- The claims of the processes other than `i`.
  pub others : (measure : Place W → ℕ) (n : ℕ) (at : ℕ → Place W) (i : ℕ) → ℕ
  others measure n at i = sum_below measure n at - measure (at i)

  before :
      (measure : Place W → ℕ) (n : ℕ) (at : ℕ → Place W) (i : ℕ)
      → i < n
      → others measure n at i + measure (at i) ≡ sum_below measure n at
  unfolding others
  before measure n at i h = omega (arith, le-sum_below measure n at i h)

  after :
      (measure : Place W → ℕ) (n : ℕ) (at : ℕ → Place W) (i : ℕ) (p : Place W)
      → i < n
      → others measure n at i + measure p ≡ sum_below measure n (update at i p)
  unfolding others
  after measure n at i p h =
      omega (arith, le-sum_below measure n at i h, sum_below-update measure n at i p h)

  pub Inv-Beside :
      {n : ℕ} {s : Threads W} (i : ℕ)
      → i < n
      → Inv n s
      → Beside
          (others locked n s.at i)
          (others holds_slot n s.at i)
          (others holds_item n s.at i)
          (s.at i)
          s.world
  Inv-Beside {n} {s} i h v = (
    rw (before locked n s.at i h, before holds_slot n s.at i h, before holds_item n s.at i h)
        v.agrees,
    v.regular i,
    v.fresh i h,
  )

  pub Beside-Inv :
      {n : ℕ} {s : Threads W} (i : ℕ) (p : Place W) (w : World W)
      → i < n
      → Inv n s
      → Beside
          (others locked n s.at i)
          (others holds_slot n s.at i)
          (others holds_item n s.at i)
          p
          w
      → ((j : ℕ) → j < n → j ≢ i → IsFresh (s.at j) w)
      → Inv n (record { world = w; at = update s.at i p })
  Beside-Inv {n} {s} i p w h v (a, r, f) rest = record {
    agrees =
        rw
          (
            ← after locked n s.at i p h,
            ← after holds_slot n s.at i p h,
            ← after holds_item n s.at i p h,
          )
          a;
    regular = λ j. ground (arith, v.regular j);
    fresh = λ j below. elim (ℕ_discrete i j) [
      | yes same ↦ subst (λ q. IsFresh q w) (ground (arith, same)) f
      | no other ↦
          subst (λ q. IsFresh q w) (ground (arith, other))
            (rest j below (λ e. ground (arith, e, other)))
    ];
  }
