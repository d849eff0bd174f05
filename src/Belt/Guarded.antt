-- ===== src/Belt/Guarded.antt =====
-- include/Belt.h: what the two tests behind the locks are for. Whatever the callbacks of a `Belt` do, as
-- long as they leave the shared memory alone, `push` and `pop` are those of a queue that does not wait.
use so_magazyn_firmy_spedycy.Base.{
  ◌≡◌, refl, ap, sym, ◌∙◌, subst, Bool, true, false, List, [], ◌∷◌, arith, Double, leb,
  if◌then◌else◌,
}
use so_magazyn_firmy_spedycy.Shared.{SharedState, Package, zero_package}
use so_magazyn_firmy_spedycy.Manager.{
  World, Outcome, returned, blocked, exited, M, pure, ◌>>=◌, ◌>>◌, After, Ensures, Ensures-then,
  Ensures-returned,
}
use so_magazyn_firmy_spedycy.Belt.Class
use so_magazyn_firmy_spedycy.Belt.Class.{Belt, place, take_off, next_package, numbered}
use so_magazyn_firmy_spedycy.Belt.Queue
use so_magazyn_firmy_spedycy.Belt.Queue.{View, Use, put, get}
use so_magazyn_firmy_spedycy.Belt.Ring.{IsRing, shown, Serves, placed, refused, taken, none_left}

module _ {W : Type 0} where
  -- It leaves the shared memory alone if it returns.
  abbrev pub LeavesMemory : {A : Type 0} → M W A → Type 0
  LeavesMemory m = (w : World W) → After (λ v. v.shm ≡ w.shm) (m w)

  pub record IsPassive (b : Belt W) : Type 0 where
    pub wait_empty : LeavesMemory b.wait_empty_fn
    pub signal_empty : LeavesMemory b.signal_empty_fn
    pub wait_full : LeavesMemory b.wait_full_fn
    pub signal_full : LeavesMemory b.signal_full_fn
    pub lock : LeavesMemory b.lock_fn
    pub unlock : LeavesMemory b.unlock_fn

  -- a piece that leaves the shared memory alone, and what follows it
  follow :
      {A B : Type 0} (Q : B → World W → Type 0) (s : SharedState W) (m : M W A) (k : A → M W B)
      (w : World W)
      → LeavesMemory m
      → w.shm ≡ s
      → ((a : A) (v : World W) → v.shm ≡ s → Ensures Q (k a v))
      → Ensures Q ((m >>= k) w)
  follow {A} Q s m k w h at next = on (m w) (h w)
    where
      on :
          (o : Outcome (A × World W))
          → After (λ v. v.shm ≡ w.shm) o
          → Ensures Q (elim o [ returned (a, v) ↦ k a v | blocked ↦ blocked | exited e ↦ exited e ])
      on (returned (a, v)) e = next a v (e ∙ at)
      on blocked e = tt
      on (exited x) e = tt

  either :
      {A : Type 0} (Q : A → World W → Type 0) (test : Bool) (m n : M W A) (w : World W)
      → (test ≡ true → Ensures Q (m w))
      → (test ≡ false → Ensures Q (n w))
      → Ensures Q ((if test then m else n) w)
  either Q true m n w hm hn = hm refl
  either Q false m n w hm hn = hn refl

module _ {W : Type 0} ⦃d : Double W⦄ where
  module _ (b : Belt W) (passive : IsPassive b) (here : b.attached ≡ true) where
    -- the calls behind a critical section that left `s'`
    leave :
        {A : Type 0} (Q : A → SharedState W → Type 0) (s' : SharedState W) (last : M W (Unit {0}))
        (a : A) (w : World W)
        → LeavesMemory last
        → w.shm ≡ s'
        → Q a s'
        → Ensures (λ x v. Q x v.shm) ((b.unlock_fn >> (last >> pure a)) w)
    leave Q s' last a w h at q =
        follow (λ x v. Q x v.shm) s' b.unlock_fn _ w passive.unlock at
          λ _ w1 at1.
            follow (λ x v. Q x v.shm) s' last _ w1 h at1 λ _ w2 at2. subst (Q a) (sym at2) q

    push-serves :
        (pkg : Package W) (w : World W)
        → IsRing w.shm
        → Ensures (λ p v. Serves (Queue.offer pkg (shown w.shm)) p v.shm) (Class.push b pkg w)
    unfolding Class.push
    push-serves pkg w i = rw here (
        follow Q s b.wait_empty_fn _ w passive.wait_empty refl λ _ w1 at1.
          follow Q s b.lock_fn _ w1 passive.lock at1 λ _ w2 at2.
            either Q (leb 10 w2.shm.current_items_count) _ _ w2
              (λ full.
                leave (Serves (Queue.offer pkg (shown s))) s b.signal_empty_fn pkg w2
                  passive.signal_empty at2
                  (refused pkg s i
                    (ap (λ (x : SharedState W). leb 10 x.current_items_count) (sym at2) ∙ full)))
              (λ room.
                leave (Serves (Queue.offer pkg (shown s))) (place pkg s) b.signal_full_fn
                  (numbered pkg w2.shm) (record w2 { shm = place pkg w2.shm }) passive.signal_full
                  (ap (place pkg) at2)
                  (subst (λ x. Serves (Queue.offer pkg (shown s)) (numbered pkg x) (place pkg s))
                    (sym at2)
                    (placed pkg s i (
                      ap (λ (x : SharedState W). leb 10 x.current_items_count) (sym at2) ∙ room)))))
      where
        s : SharedState W
        s = w.shm

        Q : Package W → World W → Type 0
        Q p v = Serves (Queue.offer pkg (shown w.shm)) p v.shm

    pop-serves :
        (w : World W)
        → IsRing w.shm
        → Ensures (λ p v. Serves (Queue.poll (shown w.shm)) p v.shm) (Class.pop b w)
    unfolding Class.pop
    pop-serves w i = rw here (
        follow Q s b.wait_full_fn _ w passive.wait_full refl λ _ w1 at1.
          follow Q s b.lock_fn _ w1 passive.lock at1 λ _ w2 at2.
            either Q (leb w2.shm.current_items_count 0) _ _ w2
              (λ empty.
                leave (Serves (Queue.poll (shown s))) s b.signal_full_fn zero_package w2
                  passive.signal_full at2
                  (none_left s i
                    (ap (λ (x : SharedState W). leb x.current_items_count 0) (sym at2) ∙ empty)))
              (λ more.
                leave (Serves (Queue.poll (shown s))) (take_off s) b.signal_empty_fn
                  (next_package w2.shm) (record w2 { shm = take_off w2.shm }) passive.signal_empty
                  (ap take_off at2)
                  (subst (λ x. Serves (Queue.poll (shown s)) (next_package x) (take_off s))
                    (sym at2)
                    (taken s i
                      (ap (λ (x : SharedState W). leb x.current_items_count 0) (sym at2) ∙ more)))))
      where
        s : SharedState W
        s = w.shm

        Q : Package W → World W → Type 0
        Q p v = Serves (Queue.poll (shown w.shm)) p v.shm

  -- several pushes and pops on a belt
  abbrev pub run_on : Belt W → List (Use W) → M W (List (Package W))
  run_on b [] = pure []
  run_on b (put p ∷ uses) = Class.push b p >>= λ q. run_on b uses >>= λ ps. pure (q ∷ ps)
  run_on b (get ∷ uses) = Class.pop b >>= λ q. run_on b uses >>= λ ps. pure (q ∷ ps)

  module _ (b : Belt W) (passive : IsPassive b) (here : b.attached ≡ true) where
    -- a use whose answer is known, and the rest
    use_then :
        (m : M W (Package W)) (uses : List (Use W)) (w : World W) (answer : Package W × View W)
        → Ensures (λ p v. Serves answer p v.shm) (m w)
        → ((v : World W)
            → IsRing v.shm
            → Ensures
                (λ ps u. IsRing u.shm × (Queue.serve uses (shown v.shm) ≡ (ps, shown u.shm)))
                (run_on b uses v))
        → Ensures
            (λ ps u.
              IsRing u.shm
              × (Queue.answer answer.0 (Queue.serve uses answer.1) ≡ (ps, shown u.shm)))
            ((m >>= λ q. run_on b uses >>= λ ps. pure (q ∷ ps)) w)
    use_then m uses w answer h rest = Ensures-then _ _ (m w) _ h λ q v served_q.
        Ensures-then _ _ (run_on b uses v) _ (rest v served_q.0)
          λ ps u served_ps. (served_ps.0, ground (arith, served_q.1, served_ps.1))

    served :
        (uses : List (Use W)) (w : World W)
        → IsRing w.shm
        → Ensures
            (λ ps v. IsRing v.shm × (Queue.serve uses (shown w.shm) ≡ (ps, shown v.shm)))
            (run_on b uses w)
    unfolding Queue.serve
    served [] w i = (i, refl)
    served (put p ∷ uses) w i =
        use_then (Class.push b p) uses w _ (push-serves b passive here p w i) (served uses)
    served (get ∷ uses) w i =
        use_then (Class.pop b) uses w _ (pop-serves b passive here w i) (served uses)

    -- Whatever the callbacks of a belt do, as long as they leave the shared memory alone: if a sequence of
    -- pushes and pops on a belt whose indices agree with its count returns, each has handed back what the
    -- queue that does not wait hands back, and what is left is what is left of that queue; the
    -- indices still agree with the count, which is at most ten.
    pub run-serves :
        (uses : List (Use W)) (w : World W) {ps : List (Package W)} {v : World W}
        → IsRing w.shm
        → run_on b uses w ≡ returned (ps, v)
        → (Queue.serve uses (shown w.shm) ≡ (ps, shown v.shm)) × IsRing v.shm
    run-serves uses w i e =
        let (ring, same) = Ensures-returned _ (run_on b uses w) (served uses w i) e in (same, ring)
