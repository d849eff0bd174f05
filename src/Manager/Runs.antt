-- ===== src/Manager/Runs.antt =====
-- Processes that run a method piece by piece, at most so many each: how long they can go on when no others
-- come in.
use so_magazyn_firmy_spedycy.Base.{
  ℕ, suc, ◌+◌, ◌-◌, ◌*◌, ◌≤◌, ◌<◌, ◌≡◌, ◌≢◌, ap, ◌⊎◌, inl, inr, arith, update, dec_lt, sum_below,
  sum_below-update, le-sum_below, find_below, sum_below-bound,
}
use so_magazyn_firmy_spedycy.Manager.Monad.{World, returned, M}

-- `advance` runs the next piece of a process, from one place to another; `outside` is the place of a
-- process that is in no method.
module _ {W P : Type 0} (advance : P → M W P) (outside : P) where
  -- a process below `n` in a method that can go on
  abbrev pub GoesOn : ℕ → World W → (ℕ → P) → Type 0
  GoesOn n w at =
      (i : ℕ) × (i < n)
      × (at i ≢ outside)
      × ((p : P) × (v : World W) × (advance (at i) w ≡ returned (p, v)))

module _ {W P : Type 0} (advance : P → M W P) (outside : P)
    (Elsewhere : World W → World W → Type 0) where
  -- `k` pieces in any order, by processes below `n` that are in a method, and between them whatever is
  -- `Elsewhere`
  pub data Run (n : ℕ) (w : World W) (at : ℕ → P) : ℕ → World W → (ℕ → P) → Type 0 where
    stays : Run n w at 0 w at
    goes :
        {k : ℕ} {v : World W} {f : ℕ → P} (i : ℕ) {p : P} {u : World W}
        → Run n w at k v f
        → i < n
        → f i ≢ outside
        → advance (f i) v ≡ returned (p, u)
        → Run n w at (suc k) u (update f i p)
    beside :
        {k : ℕ} {v : World W} {f : ℕ → P} {u : World W}
        → Run n w at k v f
        → Elsewhere v u
        → Run n w at k u f

  module _ (left : P → ℕ) (left-outside : left outside ≡ 0)
      (left-none : (p : P) → left p ≡ 0 → p ≡ outside)
      (left-advance : (p : P) (w : World W) (q : P) (v : World W)
        → advance p w ≡ returned (q, v)
        → left q ≤ left p - 1) where
    left-busy : (p : P) → p ≢ outside → 0 < left p
    left-busy p busy = elim (dec_lt 0 (left p)) [
      | yes some_left ↦ some_left
      | no none ↦ absurd (busy (left-none p (omega arith)))
    ]

    Run-left :
        {n : ℕ} {w : World W} {at : ℕ → P} {k : ℕ} {v : World W} {f : ℕ → P}
        → Run n w at k v f
        → k + sum_below left n f ≤ sum_below left n at
    Run-left stays = omega arith
    Run-left (beside run a) = Run-left run
    Run-left {n} (goes {v} {f} i {p} {u} run h busy e) = omega (
      arith,
      Run-left run,
      left-advance (f i) v p u e,
      left-busy (f i) busy,
      sum_below-update left n f i p h,
    )

    -- Where no process has more than `b` pieces left, and one that is in a method never stops the others
    -- from going on, all of them come out after `b` pieces each at most.
    pub drains :
        (b : ℕ) {n : ℕ} {w : World W} {at : ℕ → P} {k : ℕ} {v : World W} {f : ℕ → P}
        → ((i : ℕ) → left (at i) ≤ b)
        → ((i : ℕ) → i < n → f i ≢ outside → GoesOn advance outside n v f)
        → Run n w at k v f
        → (k ≤ b * n) × (((i : ℕ) → i < n → f i ≡ outside) ⊎ GoesOn advance outside n v f)
    drains b {n} {w} {at} {k} {v} {f} few free run = (
      omega (arith, Run-left run, sum_below-bound left n b at few),
      elim (dec_lt 0 (sum_below left n f)) [
        | yes some_left ↦
            let (i, h, more) = find_below left n f some_left in
            inr (free i h (λ out. absurd (omega (arith, more, ap left out, left-outside))))
        | no none ↦ inl (λ i h. left-none (f i) (omega (arith, le-sum_below left n f i h)))
      ],
    )
