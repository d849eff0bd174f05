-- ===== src/Dock/Invariant.antt =====
-- What holds of the dock, its mutex and the places of the processes at every moment.
use so_magazyn_firmy_spedycy.Base.{
  ℕ, ◌+◌, ◌≤◌, ◌<◌, ◌≡◌, ◌≢◌, refl, ap, sym, subst, arith, Option, none, some, [], ◌∷◌, true,
  Double, ◌<=◌, update, sum_below, sum_below-update, sum_below-const, pair-le-sum_below, ℕ_discrete,
  Bool-cases, inl, inr,
}
use so_magazyn_firmy_spedycy.Shared.{SharedState, TruckState}
use so_magazyn_firmy_spedycy.Manager.{World, returned, init_world}
use so_magazyn_firmy_spedycy.Truck.Class.{randomize_truck_specs}
use so_magazyn_firmy_spedycy.Express.Batch.{batch_truck-same, batch_truck-within}
use so_magazyn_firmy_spedycy.Dock.{
  Errand, docks, departs, shuts_down, ends, loads, delivers, Place, outside, about_to, in_dock,
  has_read, sends, Threads, perform, advance, IsDrawn, Move, calls, goes_on, elsewhere, Reach,
  start, next, init_threads,
}

-- holds the dock mutex
abbrev pub locked : {W : Type 0} → Place W → ℕ
locked outside = 0
locked (about_to errand) = 0
locked _ = 1

-- what a process has read behind its lock, and has not used yet
abbrev pub seen_by : {W : Type 0} → Place W → Option (SharedState W)
seen_by (has_read errand seen) = some seen
seen_by _ = none

-- The dock is the same in two states.
pub record SameDock {W : Type 0} (s t : SharedState W) : Type 0 where
  pub truck : t.dock_truck ≡ s.dock_truck
  pub completed : t.trucks_completed ≡ s.trucks_completed

module _ {W : Type 0} where
  -- What it has read of the dock is what is there.
  abbrev pub IsFresh : Place W → World W → Type 0
  IsFresh p w = elim (seen_by p) [ some seen ↦ SameDock seen w.shm | none ↦ Unit {0} ]

  stays-IsFresh : (q : Place W) (w v : World W) → SameDock w.shm v.shm → IsFresh q w → IsFresh q v
  stays-IsFresh (has_read errand seen) w v same f = ground arith
  stays-IsFresh q w v same f = tt

module _ {W : Type 0} ⦃d : Double W⦄ where
  -- The errand that a process runs is one that the generators may draw.
  abbrev pub AllDrawn : Place W → Type 0
  AllDrawn (about_to errand) = IsDrawn errand
  AllDrawn (in_dock errand) = IsDrawn errand
  AllDrawn (has_read errand seen) = IsDrawn errand
  AllDrawn _ = Unit {0}

  pub record IsWithin (truck : TruckState W) : Type 0 where
    pub weight : (truck.current_weight <= truck.max_weight) ≡ true
    pub volume : (truck.current_volume <= truck.max_volume) ≡ true

  -- A truck at the dock is within its limits.
  abbrev pub IsSafe : SharedState W → Type 0
  IsSafe shm = shm.dock_truck.is_present ≡ true → IsWithin shm.dock_truck

  pub record Inv (n : ℕ) (s : Threads W) : Type 0 where
    pub quiet : s.world.faults ≡ []
    pub mutex : s.world.sem.dock_mutex + sum_below locked n s.at ≡ 1
    pub fresh : (i : ℕ) → i < n → IsFresh (s.at i) s.world
    pub drawn : (i : ℕ) → i < n → AllDrawn (s.at i)
    pub safe : IsSafe s.world.shm

  perform-IsSafe :
      (errand : Errand W) (s : SharedState W)
      → IsDrawn errand
      → IsSafe s
      → IsSafe (perform errand s)
  unfolding perform randomize_truck_specs
  perform-IsSafe (docks my_pid a b) s (ha, hb) k = elim (Bool-cases s.dock_truck.is_present) [
    | inl here ↦ ground (arith, k here)
    | inr empty ↦ λ e. ground arith
  ]
  perform-IsSafe (departs my_pid) s h k = λ e. ground (arith, k)
  perform-IsSafe (shuts_down my_pid) s h k = λ e. ground (arith, k)
  perform-IsSafe (ends my_pid) s h k = λ e. ground (arith, k)
  perform-IsSafe (loads pkg) s h k = λ e. ground (arith, k)
  perform-IsSafe (delivers draws) s h k = λ e.
      ground (arith, k, batch_truck-same draws s.dock_truck, batch_truck-within draws s.dock_truck)

  -- A step moves the mutex by what the process holds of it, and keeps the system calls from failing.
  advance-mutex :
      (p : Place W) (w : World W) {q : Place W} {v : World W}
      → w.faults ≡ []
      → advance p w ≡ returned (q, v)
      → (v.sem.dock_mutex + locked q ≡ w.sem.dock_mutex + locked p) × (v.faults ≡ [])
  unfolding advance
  advance-mutex (sends []) w h e = ground arith
  advance-mutex (sends (pid ∷ pids)) w h e = ground arith
  advance-mutex p w h e = ground arith

  -- A process outside the mutex leaves the dock alone.
  advance-dock :
      (p : Place W) (w : World W) {q : Place W} {v : World W}
      → locked p ≡ 0
      → advance p w ≡ returned (q, v)
      → SameDock w.shm v.shm
  unfolding advance
  advance-dock p w out e = ground arith

  advance-IsFresh :
      (p : Place W) (w : World W) {q : Place W} {v : World W}
      → advance p w ≡ returned (q, v)
      → IsFresh q v
  unfolding advance
  advance-IsFresh (sends []) w e = ground arith
  advance-IsFresh (sends (pid ∷ pids)) w e = ground arith
  advance-IsFresh p w e = ground arith

  advance-AllDrawn :
      (p : Place W) (w : World W) {q : Place W} {v : World W}
      → AllDrawn p
      → advance p w ≡ returned (q, v)
      → AllDrawn q
  unfolding advance
  advance-AllDrawn (sends []) w h e = ground arith
  advance-AllDrawn (sends (pid ∷ pids)) w h e = ground arith
  advance-AllDrawn p w h e = ground arith

  same-IsSafe : {s t : SharedState W} → SameDock s t → IsSafe s → IsSafe t
  same-IsSafe same k =
      subst (λ (x : TruckState W). x.is_present ≡ true → IsWithin x) (sym same.truck) k

  back-IsSafe : {s t : SharedState W} → SameDock s t → IsSafe t → IsSafe s
  back-IsSafe same k = subst (λ (x : TruckState W). x.is_present ≡ true → IsWithin x) same.truck k

  advance-IsSafe :
      (p : Place W) (w : World W) {q : Place W} {v : World W}
      → IsFresh p w
      → AllDrawn p
      → IsSafe w.shm
      → advance p w ≡ returned (q, v)
      → IsSafe v.shm
  unfolding advance
  advance-IsSafe (has_read errand seen) w {q} {v} f h k e =
      same-IsSafe {s = perform errand seen} {t = v.shm} (ground arith)
        (perform-IsSafe errand seen h (back-IsSafe f k))
  advance-IsSafe (sends []) w {q} {v} f h k e = same-IsSafe {s = w.shm} {t = v.shm} (ground arith) k
  advance-IsSafe (sends (pid ∷ pids)) w {q} {v} f h k e =
      same-IsSafe {s = w.shm} {t = v.shm} (ground arith) k
  advance-IsSafe p w {q} {v} f h k e = same-IsSafe {s = w.shm} {t = v.shm} (ground arith) k

  -- what another process has read, when one goes on
  beside-IsFresh :
      (p q : Place W) (w : World W) {p' : Place W} {v : World W}
      → locked p + locked q ≤ 1
      → advance p w ≡ returned (p', v)
      → IsFresh q w
      → IsFresh q v
  beside-IsFresh p (has_read errand seen) w {p'} {v} alone e f =
      stays-IsFresh (has_read errand seen) w v (advance-dock p w (omega (arith, alone)) e) f
  beside-IsFresh p q w alone e f = tt

  -- a family of facts, changed at one index
  changed :
      (P : Place W → Type 0) {n : ℕ} (at : ℕ → Place W) (i : ℕ) (p : Place W)
      → P p
      → ((j : ℕ) → j < n → j ≢ i → P (at j))
      → (j : ℕ) → j < n
      → P (update at i p j)
  changed P at i p here rest j below = elim (ℕ_discrete i j) [
    | yes same ↦ subst P (ground (arith, same)) here
    | no other ↦ subst P (ground (arith, other)) (rest j below (λ e. ground (arith, e, other)))
  ]

  pub Move-Inv : {n : ℕ} {s t : Threads W} → Inv n s → Move n s t → Inv n t
  Move-Inv {n} {s} v (calls i errand h out ok) = record {
    quiet = v.quiet;
    mutex =
        omega (arith, v.mutex, ap locked out, sum_below-update locked n s.at i (about_to errand) h);
    fresh =
        changed (λ p. IsFresh p s.world) s.at i (about_to errand) tt
          (λ j below other. v.fresh j below);
    drawn = changed AllDrawn s.at i (about_to errand) ok (λ j below other. v.drawn j below);
    safe = v.safe;
  }
  Move-Inv {n} {s} v (goes_on i {p} {w} h e) = record {
    quiet = (advance-mutex (s.at i) s.world v.quiet e).1;
    mutex = omega (
      arith,
      v.mutex,
      (advance-mutex (s.at i) s.world v.quiet e).0,
      sum_below-update locked n s.at i p h,
    );
    fresh =
        changed (λ q. IsFresh q w) s.at i p (advance-IsFresh (s.at i) s.world e)
          (λ j below other.
            beside-IsFresh (s.at i) (s.at j) s.world
              (omega (
                arith,
                v.mutex,
                pair-le-sum_below locked n s.at i j (λ e'. other (sym e')) h below,
              ))
              e (v.fresh j below));
    drawn =
        changed AllDrawn s.at i p (advance-AllDrawn (s.at i) s.world (v.drawn i h) e)
          (λ j below other. v.drawn j below);
    safe = advance-IsSafe (s.at i) s.world (v.fresh i h) (v.drawn i h) v.safe e;
  }
  Move-Inv {n} {s} v (elsewhere {w} a) = record {
    quiet = a.quiet;
    mutex = omega (arith, v.mutex, a.mutex);
    fresh = λ j below. stays-IsFresh (s.at j) s.world w same (v.fresh j below);
    drawn = v.drawn;
    safe = same-IsSafe same v.safe;
  }
    where
      same : SameDock s.world.shm w.shm
      same = record { truck = a.truck; completed = a.completed }

  init-Inv : (n : ℕ) → Inv n init_threads
  unfolding init_world
  init-Inv n = record {
    quiet = refl;
    mutex = ground (arith, sum_below-const (λ (p : Place W). locked p) n outside refl);
    fresh = λ i h. tt;
    drawn = λ i h. tt;
    safe = λ e. cc;
  }

  pub Reach-Inv : {n : ℕ} {s : Threads W} → Reach n s → Inv n s
  Reach-Inv {n} start = init-Inv n
  Reach-Inv (next r move) = Move-Inv (Reach-Inv r) move
