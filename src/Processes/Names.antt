-- ===== src/Processes/Names.antt =====
-- src/main_truck.cpp, src/main_worker.cpp: the user names that are made of a number.
use so_magazyn_firmy_spedycy.Base.{
  ℕ, zero, suc, ◌+◌, ◌-◌, ◌*◌, ◌/◌, ◌%◌, ◌≤◌, ◌≡◌, sym, ◌∙◌, ap, arith, [], ◌∷◌, ◌++◌, Bytes, codes,
  ltb, if◌then◌else◌, Bool-cases, inl, inr,
}

-- the decimal digits of `n` before some bytes; `n` rounds are enough
unfoldable pub digits : ℕ → ℕ → Bytes → Bytes
digits zero n rest = (48 + n) ∷ rest
digits (suc fuel) n rest =
    let more = digits fuel (n / 10) ((48 + n % 10) ∷ rest) in
    if ltb n 10 then (48 + n) ∷ rest else more

-- `std::to_string` of a number that is not negative
unfoldable pub to_string : ℕ → Bytes
unfolding digits
to_string n = digits n n []

unfoldable pub truck_name : ℕ → Bytes
unfolding to_string
truck_name id = codes "Truck_" ++ to_string id

unfoldable pub worker_name : ℕ → Bytes
unfolding to_string
worker_name id = codes "Worker_" ++ to_string id

-- the number that some digits stand for, read on from `v`
abbrev value : ℕ → Bytes → ℕ
value v [] = v
value v (b ∷ bs) = value (v * 10 + (b - 48)) bs

value-digits : (fuel n : ℕ) (rest : Bytes) → n ≤ fuel → value 0 (digits fuel n rest) ≡ value n rest
unfolding digits
value-digits zero n rest h = ap (λ v. value v rest) (omega arith)
value-digits (suc fuel) n rest h = elim (Bool-cases (ltb n 10)) [
  | inl small ↦ rw small (ap (λ v. value v rest) (omega arith))
  | inr big ↦ rw big (
      value-digits fuel (n / 10) ((48 + n % 10) ∷ rest) (ground arith)
      ∙ ap (λ v. value v rest) (omega arith))
]

drop_front : (name a b : Bytes) → name ++ a ≡ name ++ b → a ≡ b
drop_front [] a b e = e
drop_front (c ∷ name) a b e = drop_front name a b (cc)

-- Trucks with different numbers have different user names, and so have workers.
pub names_differ :
    (prefix : Bytes) (a b : ℕ) → prefix ++ to_string a ≡ prefix ++ to_string b → a ≡ b
unfolding to_string
names_differ prefix a b e =
    sym (value-digits a a [] (omega arith))
    ∙ (ap (value 0) (drop_front prefix (digits a a []) (digits b b []) e)
        ∙ value-digits b b [] (omega arith))
