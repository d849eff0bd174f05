-- ===== src/Session/Names.antt =====
-- <cstring> as `login` uses it: a name that was stored compares as the name that was given.
use so_magazyn_firmy_spedycy.Base.{
  ℕ, zero, suc, ◌≤◌, ◌≡◌, refl, [], ◌∷◌, arith, Bytes, strncpy, strncmp_eq, length,
}

pub strncmp_eq_comm : (n : ℕ) (s t : Bytes) → strncmp_eq n s t ≡ strncmp_eq n t s
unfolding strncmp_eq
strncmp_eq_comm zero s t = refl
strncmp_eq_comm (suc n) [] [] = refl
strncmp_eq_comm (suc n) [] (b ∷ t) = refl
strncmp_eq_comm (suc n) (a ∷ s) [] = refl
strncmp_eq_comm (suc n) (a ∷ s) (b ∷ t) = ground (arith, strncmp_eq_comm n s t)

-- Copying the first `n` bytes of a name changes no comparison of the first `n` bytes with it.
pub strncmp_eq-strncpy :
    (n : ℕ) (s name buf : Bytes)
    → n ≤ length buf
    → strncmp_eq n s (strncpy n name buf) ≡ strncmp_eq n s name
unfolding strncmp_eq strncpy
strncmp_eq-strncpy zero s name buf h = refl
strncmp_eq-strncpy (suc n) s name [] h = absurd (omega arith)
strncmp_eq-strncpy (suc n) [] [] (b ∷ buf) h = refl
strncmp_eq-strncpy (suc n) (a ∷ s) [] (b ∷ buf) h = ground arith
strncmp_eq-strncpy (suc n) [] (c ∷ name) (b ∷ buf) h = refl
strncmp_eq-strncpy (suc n) (a ∷ s) (c ∷ name) (b ∷ buf) h =
    ground (arith, strncmp_eq-strncpy n s name buf (omega arith))
