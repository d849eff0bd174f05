-- ===== src/Session/Table.antt =====
-- include/SessionManager.h: what holds of the session table, entry by entry.
use so_magazyn_firmy_spedycy.Base.{
  ℕ, zero, suc, ◌≤◌, ◌<◌, ◌≡◌, ap, ◌≢◌, true, false, none, some, List, [], ◌∷◌, arith, Bytes,
  strncmp_eq, length, length-set, length-replicate, replicate, refl, get_or, set, get_or-set_self,
  get_or-set_ne, ◌⊎◌, ◌&&◌, ℕ_discrete, dec_lt, Bool-cases, set_out, inl, inr,
}
use so_magazyn_firmy_spedycy.Shared.{UserSession, zero_session}
use so_magazyn_firmy_spedycy.Session.{has_user, free_slot, session_of}
use so_magazyn_firmy_spedycy.Session.Names.{strncmp_eq_comm, strncmp_eq-strncpy}

-- entry `i` of the table
abbrev pub entry : List UserSession → ℕ → UserSession
entry users i = get_or users i zero_session

-- Two active sessions differ in the first 31 bytes of their names, and no session has more
-- sub-processes than its quota.
pub record IsSound (users : List UserSession) : Type 0 where
  pub size : length users ≡ 210
  pub distinct :
      (i j : ℕ)
      → i ≢ j
      → (entry users i).active ≡ true
      → (entry users j).active ≡ true
      → strncmp_eq 31 (entry users i).username (entry users j).username ≡ false
  pub quota : (i : ℕ) → (entry users i).current_processes ≤ (entry users i).max_processes

pub has_user-false :
    (name : Bytes) (users : List UserSession) (i : ℕ)
    → has_user name users ≡ false
    → (entry users i).active ≡ true
    → strncmp_eq 31 (entry users i).username name ≡ false
unfolding has_user
has_user-false name [] i h a = cc
has_user-false name (u ∷ users) zero h a = ground arith
has_user-false name (u ∷ users) (suc i) h a = has_user-false name users i (ground arith) a

pub has_user-true :
    (name : Bytes) (users : List UserSession)
    → has_user name users ≡ true
    → (i : ℕ) × ((entry users i).active ≡ true)
      × (strncmp_eq 31 (entry users i).username name ≡ true)
unfolding has_user
has_user-true name [] h = cc
has_user-true name (u ∷ users) h = elim (Bool-cases (u.active && strncmp_eq 31 u.username name)) [
  | inl e ↦ (0, ground arith, ground arith)
  | inr e ↦ let (i, a, same) = has_user-true name users (ground arith) in (suc i, a, same)
]

-- The slot that is found is the first inactive one.
pub free_slot-some :
    (users : List UserSession) (k : ℕ)
    → free_slot users ≡ some k
    → (k < length users)
      × ((entry users k).active ≡ false)
      × ((i : ℕ) → i < k → (entry users i).active ≡ true)
unfolding free_slot
free_slot-some [] k h = cc
free_slot-some (u ∷ users) zero h = (omega arith, ground arith, λ i lt. absurd (omega arith))
free_slot-some (u ∷ users) (suc k) h =
    let (lt, free, below) = free_slot-some users k (ground arith) in
    (omega arith, free, elim [ zero ↦ λ lt'. ground arith | suc i ↦ λ lt'. below i (omega arith) ])

pub free_slot-none :
    (users : List UserSession) (i : ℕ)
    → free_slot users ≡ none
    → i < length users
    → (entry users i).active ≡ true
unfolding free_slot
free_slot-none [] i h lt = absurd (omega arith)
free_slot-none (u ∷ users) zero h lt = ground arith
free_slot-none (u ∷ users) (suc i) h lt = free_slot-none users i (ground arith) (omega arith)

-- A write to slot `k`, seen from any index.
entry-set :
    (users : List UserSession) (k i : ℕ) (u : UserSession)
    → ((i ≡ k) × (entry (set users k u) i ≡ u)) ⊎ (entry (set users k u) i ≡ entry users i)
entry-set users k i u = elim (ℕ_discrete i k) [
  | yes e ↦ elim (dec_lt k (length users)) [
    | yes lt ↦ inl (e, ground (arith, get_or-set_self users k u zero_session lt))
    | no ge ↦ inr (ap (λ l. entry l i) (set_out users k u (omega arith)))
  ]
  | no ne ↦ inr (get_or-set_ne users k i u zero_session (λ e. ne (ground arith)))
]

-- Filling in the free slot for a name that no active session has keeps the table sound.
pub session_of-IsSound :
    (users : List UserSession) (k : ℕ) (name : Bytes) (role org_id max_procs pid : ℕ)
    → IsSound users
    → has_user name users ≡ false
    → free_slot users ≡ some k
    → IsSound (set users k (session_of name role org_id max_procs pid))
session_of-IsSound users k name role org_id max_procs pid v fresh free = record {
  size = omega (arith, length-set users k new, v.size);
  distinct = λ i j ne ai aj. ground (
    arith,
    entry-set users k i new,
    entry-set users k j new,
    v.distinct i j ne,
    has_user-false name users i fresh,
    has_user-false name users j fresh,
    strncmp_eq-strncpy 31 (entry users i).username name zero_session.username,
    strncmp_eq-strncpy 31 (entry users j).username name zero_session.username,
    strncmp_eq_comm 31 new.username (entry users j).username,
  );
  quota = λ i. ground (arith, entry-set users k i new, v.quota i);
}
  where
    new : UserSession
    new = session_of name role org_id max_procs pid

-- Rewriting an entry in place keeps the table sound, if it keeps the name, activates nothing and
-- respects the quota.
pub write-IsSound :
    (users : List UserSession) (k : ℕ) (u : UserSession)
    → IsSound users
    → (u.active ≡ true → (entry users k).active ≡ true)
    → u.username ≡ (entry users k).username
    → u.current_processes ≤ u.max_processes
    → IsSound (set users k u)
write-IsSound users k u v act name le = record {
  size = omega (arith, length-set users k u, v.size);
  distinct = λ i j ne ai aj.
      ground (arith, entry-set users k i u, entry-set users k j u, v.distinct i j ne);
  quota = λ i. ground (arith, entry-set users k i u, v.quota i);
}

get_or-replicate {ℓ} : {A : Type ℓ} (n i : ℕ) (a : A) → get_or (replicate n a) i a ≡ a
get_or-replicate zero i a = refl
get_or-replicate (suc n) zero a = refl
get_or-replicate (suc n) (suc i) a = get_or-replicate n i a

-- The table that the owner of the segment makes is sound.
pub init-IsSound : IsSound (replicate 210 zero_session)
init-IsSound = record {
  size = length-replicate 210 zero_session;
  distinct = λ i j ne a b. absurd (ground (arith, get_or-replicate 210 i zero_session));
  quota = λ i. ground (arith, get_or-replicate 210 i zero_session);
}
