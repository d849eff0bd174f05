-- ===== src/Belt/Fifo.antt =====
-- What the belt hands out over its life: every package once, in the order of arrival, numbered 1, 2,
-- 3 and on.
use mathlib.Core.List.{append_assoc, append-nil}
use so_magazyn_firmy_spedycy.Base.{
  ℕ, zero, suc, ◌+◌, ◌^◌, ◌<◌, ◌≡◌, refl, ap, sym, ◌∙◌, true, List, [], ◌∷◌, ◌++◌, map, arith,
  Double, length, length-append, int_inc,
}
use so_magazyn_firmy_spedycy.Shared.{Package}
use so_magazyn_firmy_spedycy.Manager.{World, Outcome, returned, blocked, exited, init_world}
use so_magazyn_firmy_spedycy.Belt.{run}
use so_magazyn_firmy_spedycy.Belt.Queue
use so_magazyn_firmy_spedycy.Belt.Queue.{View, Use, put, get, arrivals, is_balanced, puts}
use so_magazyn_firmy_spedycy.Belt.Refine.{view, observe, init-IsValid, run_refines}

abbrev pub count_from : ℕ → ℕ → List ℕ
count_from n zero = []
count_from n (suc k) = n ∷ count_from (suc n) k

module _ {W : Type 0} where
  -- what a queue has given out and still holds, after some uses
  record Served (uses : List (Use W)) (v : View W) : Type 0 where
    out : List (Package W)
    last : View W
    ran : Queue.run uses v ≡ returned (out, last)
    kept : out ++ last.items ≡ v.items ++ arrivals uses v.created

  abbrev Serves : List (Use W) → Type 0
  Serves uses =
      (items : List (Package W)) (created : ℕ)
      → is_balanced uses (length items) ≡ true
      → Served uses (record { items = items; created = created })

  serve_get : (uses : List (Use W)) → Serves uses → Serves (get ∷ uses)
  unfolding Queue.run Queue.pop arrivals is_balanced
  serve_get uses ih [] created h = absurd (ground arith)
  serve_get uses ih (p ∷ ps) created h = record {
    out = p ∷ rest.out;
    last = rest.last;
    ran = rw (rest.ran);
    kept = ap (λ l. p ∷ l) rest.kept;
  }
    where
      rest : Served uses (record { items = ps; created = created })
      rest = ih ps created (ground arith)

  serve_put : (p : Package W) (uses : List (Use W)) → Serves uses → Serves (put p ∷ uses)
  unfolding Queue.run Queue.push arrivals is_balanced
  serve_put p uses ih items created h = record {
    out = rest.out;
    last = rest.last;
    ran = ground (arith, rest.ran);
    kept = rest.kept ∙ append_assoc items (new ∷ []) (arrivals uses (int_inc created));
  }
    where
      new : Package W
      new = record p { id = int_inc created }

      rest : Served uses (record { items = items ++ new ∷ []; created = int_inc created })
      rest =
          ih (items ++ new ∷ []) (int_inc created) (ground (arith, length-append items (new ∷ [])))

  serve : (uses : List (Use W)) → Serves uses
  unfolding Queue.run arrivals
  serve [] items created h = record {
    out = [];
    last = record { items = items; created = created };
    ran = refl;
    kept = sym (append-nil items);
  }
  serve (put p ∷ uses) items created h = serve_put p uses (serve uses) items created h
  serve (get ∷ uses) items created h = serve_get uses (serve uses) items created h

  -- Numbers do not come round to 0 before 2^31 packages.
  ids-arrivals :
      (uses : List (Use W)) (n : ℕ)
      → n + puts uses < 2 ^ 31
      → map (λ p. p.id) (arrivals uses n) ≡ count_from (suc n) (puts uses)
  unfolding arrivals puts
  ids-arrivals [] n h = refl
  ids-arrivals (put p ∷ uses) n h =
      let e : int_inc n ≡ suc n = omega arith in
      rw e (ap (λ l. suc n ∷ l) (ids-arrivals uses (suc n) (omega arith)))
  ids-arrivals (get ∷ uses) n h = ids-arrivals uses n h

module _ {W : Type 0} ⦃d : Double W⦄ where
  observed :
      {A : Type 0} (o : Outcome (A × World W)) {a : A} {v : View W}
      → observe o ≡ returned (a, v)
      → (w : World W) × (o ≡ returned (a, w)) × (view w ≡ v)
  observed (returned (b, w)) e = (w, ground arith, ground arith)
  observed blocked e = cc
  observed (exited x) e = cc

  -- From the start, pushes and pops in an order in which none has to wait all return; what was popped
  -- and what still lies on the belt, in that order, carry the numbers 1, 2, 3 and on, one for each
  -- push, as long as there are fewer than 2^31 pushes.
  pub run_fifo :
      (uses : List (Use W))
      → is_balanced uses 0 ≡ true
      → puts uses < 2 ^ 31
      → (out : List (Package W)) × (w : World W) × (run uses init_world ≡ returned (out, w))
        × (map (λ p. p.id) (out ++ (view w).items) ≡ count_from 1 (puts uses))
  unfolding init_world
  run_fifo uses h small =
      let s = serve uses [] 0 h in
      let (w, ran, seen) =
        observed (run uses init_world) (run_refines uses init_world init-IsValid ∙ s.ran) in
      let ids = λ (ps : List (Package W)). map (λ p. p.id) ps in
      (
        s.out,
        w,
        ran,
        ap (λ (v : View W). ids (s.out ++ v.items)) seen
            ∙ ap ids s.kept
            ∙ ids-arrivals uses 0 (omega arith),
      )
