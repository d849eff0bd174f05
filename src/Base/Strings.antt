-- ===== src/Base/Strings.antt =====
-- Bytes of C strings and of `std::string`, with the functions of <cstring> that the code calls.
use Prim.Native.Nat.{ℕ, zero, suc, ◌+◌}
use Prim.Native.Char.{code}
use Prim.Native.String.{String}
use mathlib.Core.Bool.{Bool, true, false, ◌&&◌}
use mathlib.Core.List.{List, [], ◌∷◌, map}
use mathlib.Core.Path.{◌≡◌, refl}
use native.Mathlib.Omega.{arith}
use so_magazyn_firmy_spedycy.Base.Tests.{◌==◌, leb, if◌then◌else◌}

abbrev pub Bytes : Type 0
Bytes = List ℕ

-- the bytes of an ASCII literal
abbrev pub codes : String → Bytes
codes String.[] = []
codes (String.◌∷◌ c s) = code c ∷ codes s

-- `strncpy(dst, src, n)`: the bytes of `src` up to its NUL, then NULs, `n` bytes in all
unfoldable pub strncpy : ℕ → Bytes → Bytes → Bytes
strncpy zero src dst = dst
strncpy (suc n) src [] = []
strncpy (suc n) [] (b ∷ dst) = 0 ∷ strncpy n [] dst
strncpy (suc n) (c ∷ src) (b ∷ dst) = c ∷ strncpy n (if c == 0 then [] else src) dst

-- `strncmp(s, t, n) == 0`; a list ends as if by a NUL
unfoldable pub strncmp_eq : ℕ → Bytes → Bytes → Bool
strncmp_eq zero s t = true
strncmp_eq (suc n) [] [] = true
strncmp_eq (suc n) [] (b ∷ t) = b == 0
strncmp_eq (suc n) (a ∷ s) [] = a == 0
strncmp_eq (suc n) (a ∷ s) (b ∷ t) =
    let rest = strncmp_eq n s t in if a == b then (if a == 0 then true else rest) else false

-- `std::string(buf)`: the bytes before the first NUL
unfoldable pub string_of : Bytes → Bytes
string_of [] = []
string_of (b ∷ buf) = let rest = string_of buf in if b == 0 then [] else b ∷ rest

-- `==` on `std::string`
unfoldable pub bytes_eq : Bytes → Bytes → Bool
bytes_eq [] [] = true
bytes_eq [] (b ∷ t) = false
bytes_eq (a ∷ s) [] = false
bytes_eq (a ∷ s) (b ∷ t) = a == b && bytes_eq s t

-- `std::tolower` in the "C" locale
unfoldable pub tolower : ℕ → ℕ
tolower c = if leb b'A' c && leb c b'Z' then c + 32 else c

-- `find` on a `std::map` from strings, and what stands for `end()`
unfoldable pub find_or {ℓ} : {A : Type ℓ} → A → Bytes → List (Bytes × A) → A
find_or default key [] = default
find_or default key ((k, a) ∷ rest) = if bytes_eq key k then a else find_or default key rest

tolower-tolower : (c : ℕ) → tolower (tolower c) ≡ tolower c
unfolding tolower
tolower-tolower c = ground arith

pub lowered_twice : (text : Bytes) → map tolower (map tolower text) ≡ map tolower text
lowered_twice [] = refl
lowered_twice (c ∷ text) = rw (tolower-tolower c, lowered_twice text) refl

-- `bytes_eq` answers true on equal strings only.
pub bytes_eq-true : (s t : Bytes) → bytes_eq s t ≡ true → s ≡ t
unfolding bytes_eq
bytes_eq-true [] [] e = refl
bytes_eq-true [] (b ∷ t) e = cc
bytes_eq-true (a ∷ s) [] e = cc
bytes_eq-true (a ∷ s) (b ∷ t) e = ground (arith, bytes_eq-true s t)

pub bytes_eq_refl : (s : Bytes) → bytes_eq s s ≡ true
unfolding bytes_eq
bytes_eq_refl [] = refl
bytes_eq_refl (a ∷ s) = ground (arith, bytes_eq_refl s)
