-- ===== src/Terminal/Letters.antt =====
-- include/terminal: the line that a user types, in capital or small letters.
use so_magazyn_firmy_spedycy.Base.{
  ◌≡◌, refl, sym, ◌∙◌, arith, Bool, true, ◌||◌, List, [], ◌∷◌, ◌++◌, map, Bytes, codes, bytes_eq,
  tolower, lowered_twice, bytes_eq-true, find_or, Bool-cases, inl, inr, ◌⊎◌,
}
use so_magazyn_firmy_spedycy.Manager.{World, M, ◌>>=◌, pure, returned, bind-returned, bind-same}
use so_magazyn_firmy_spedycy.Shared.{UserRole}
use so_magazyn_firmy_spedycy.Session.{get_current_role}
use so_magazyn_firmy_spedycy.Terminal.Reads.{get_current_role_lem, greeting, greet_lem}
use so_magazyn_firmy_spedycy.Terminal.{
  Terminal, Output, CliCommand, exit, resolve, Input, line, closed_terminal, is_nil, run_line,
  read_line, greet, run_once, execute, settle,
}

-- the words that end the console before they are looked up
abbrev is_closing : Bytes → Bool
is_closing text = bytes_eq text (codes "exit") || bytes_eq text (codes "quit")

closing_word :
    (text : Bytes) → is_closing text ≡ true → (text ≡ codes "exit") ⊎ (text ≡ codes "quit")
closing_word text e = elim (Bool-cases (bytes_eq text (codes "exit"))) [
  | inl a ↦ inl (bytes_eq-true text _ a)
  | inr a ↦ inr (bytes_eq-true text _ (ground arith))
]

resolve-closing : (text : Bytes) → is_closing text ≡ true → resolve text ≡ exit
unfolding resolve find_or bytes_eq
resolve-closing text e = elim (closing_word text e) [
  | inl same ↦ rw same refl
  | inr same ↦ rw same refl
]

is_nil-map : (text : Bytes) → is_nil (map tolower text) ≡ is_nil text
is_nil-map [] = refl
is_nil-map (c ∷ text) = refl

module _ {W : Type 0} where
  abbrev after_role : CliCommand → Terminal → UserRole → M W (List Output × Terminal)
  after_role cmd t role = execute cmd t.session role t.active >>= λ done. settle t done

  run_line-closing :
      (t : Terminal) (text : Bytes) (w : World W)
      → is_closing (map tolower text) ≡ true
      → run_line t text w ≡ returned (([], closed_terminal t), w)
  unfolding run_line execute
  run_line-closing t text w e = rw (resolve-closing (map tolower text) e) (
      bind-returned (get_current_role t.session) (λ role. after_role exit t role) w
        (get_current_role_lem t.session w))

  run_line-lowered :
      (t : Terminal) (text : Bytes) → run_line {W = W} t (map tolower text) ≡ run_line t text
  unfolding run_line
  run_line-lowered t text = rw (lowered_twice text) refl

  read_line-lowered :
      (t : Terminal) (text : Bytes) (w : World W)
      → read_line t (line (map tolower text)) w ≡ read_line t (line text) w
  unfolding read_line tolower
  read_line-lowered t text w = elim (Bool-cases (is_closing text)) [
    | inl e ↦ elim (closing_word text e) [ inl same ↦ rw same refl | inr same ↦ rw same refl ]
    | inr e ↦ ground (arith, run_line-closing t text w, run_line-lowered t text, is_nil-map text)
  ]

  abbrev after_greeting : Terminal → Input → List Output → M W (List Output × Terminal)
  after_greeting t input out =
      read_line (record t { header_printed = true }) input >>= λ done. pure (out ++ done.0, done.1)

  -- A line and the same line in small letters make the console do the same, print the same and leave
  -- the same terminal: `STOP` halts the system as `stop` does, and `EXIT` ends the console as `exit` does.
  pub case_insensitive :
      (t : Terminal) (text : Bytes) (w : World W)
      → run_once t (line (map tolower text)) w ≡ run_once t (line text) w
  unfolding run_once
  case_insensitive t text w =
      bind-returned (greet t) (after_greeting t (line (map tolower text))) w (greet_lem t w)
      ∙ bind-same (read_line shown (line (map tolower text))) (read_line shown (line text))
          (λ done. pure (greeting t w.shm ++ done.0, done.1)) w (read_line-lowered shown text w)
      ∙ sym (bind-returned (greet t) (after_greeting t (line text)) w (greet_lem t w))
    where
      shown : Terminal
      shown = record t { header_printed = true }
