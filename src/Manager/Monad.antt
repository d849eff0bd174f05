-- ===== src/Manager/Monad.antt =====
-- include/Manager.h: what a process sees of the kernel, and one process running against it.
use mathlib.Core.Path.{subst, subst₂}
use so_magazyn_firmy_spedycy.Base.{
  ℕ, ◌≡◌, refl, ap, ◌∙◌, Bool, true, false, Option, List, [], Double, if◌then◌else◌,
}
use so_magazyn_firmy_spedycy.Shared.{SharedState, CommandMessage, init_state, max_belt_capacity_k}

-- `enum SemIndex`
pub data SemIndex : Type 0 where
  sem_mutex_belt sem_empty_slots sem_full_slots sem_dock_mutex : SemIndex

-- The values of the semaphore set.
pub record Semaphores : Type 0 where
  pub mutex_belt : ℕ
  pub empty_slots : ℕ
  pub full_slots : ℕ
  pub dock_mutex : ℕ

-- the values of `errno` that the code tells apart
pub data Errno : Type 0 where
  eidrm einval eintr : Errno
  -- no errno: `msgsnd` finds the queue full and sleeps
  queue_full : Errno
  other_errno : ℕ → Errno

-- The shared memory, the semaphores, the message queue, and what the next `semop`, `msgsnd` and
-- `msgrcv` report, in order: `none` for success, `some e` for -1 with that `errno`. When the list
-- has run out they succeed.
pub record World (W : Type 0) : Type 0 where
  pub shm : SharedState W
  pub sem : Semaphores
  pub queue : List CommandMessage
  pub faults : List (Option Errno)

-- A run of some code by one process. `blocked`: it sleeps in the kernel until another process acts.
-- `exited`: the code called `exit(errno)`.
pub data Outcome {ℓ} (A : Type ℓ) : Type ℓ where
  returned : A → Outcome A
  blocked : Outcome A
  exited : Errno → Outcome A

abbrev pub M : Type 0 → Type 0 → Type 0
M W A = World W → Outcome (A × World W)

abbrev pub pure : {W A : Type 0} → A → M W A
pure a w = returned (a, w)

infixl 5 ◌>>=◌ ◌>>◌
abbrev pub ◌>>=◌ : {W A B : Type 0} → M W A → (A → M W B) → M W B
◌>>=◌ m f w = elim (m w) [ returned (a, w') ↦ f a w' | blocked ↦ blocked | exited e ↦ exited e ]

abbrev pub ◌>>◌ : {W B : Type 0} → M W (Unit {0}) → M W B → M W B
m >> k = m >>= λ _. k

-- `*shm`
abbrev pub get_state : {W : Type 0} → M W (SharedState W)
get_state w = returned (w.shm, w)

abbrev pub put_state : {W : Type 0} → SharedState W → M W (Unit {0})
put_state s w = returned (tt, record w { shm = s })

abbrev pub modify : {W : Type 0} → (SharedState W → SharedState W) → M W (Unit {0})
modify f w = returned (tt, record w { shm = f w.shm })

-- The owner's constructor: the four `semctl` calls, and the zeroed segment.
abbrev pub init_semaphores : Semaphores
init_semaphores = record {
  mutex_belt = 1;
  empty_slots = max_belt_capacity_k;
  full_slots = 0;
  dock_mutex = 1;
}

unfoldable pub init_world : {W : Type 0} ⦃d : Double W⦄ → World W
unfolding init_state
init_world = record { shm = init_state; sem = init_semaphores; queue = []; faults = [] }

-- `P` holds of the world that a run returns.
abbrev pub After : {W A : Type 0} → (World W → Type 0) → Outcome (A × World W) → Type 0
After P (returned (a, w)) = P w
After P blocked = Unit {0}
After P (exited e) = Unit {0}

pub After-bind :
    {W A B : Type 0} (P : World W → Type 0) (o : Outcome (A × World W)) (k : A → M W B)
    → ((a : A) (w : World W) → P w → After P (k a w))
    → After P o
    → After P (elim o [ returned (a, w) ↦ k a w | blocked ↦ blocked | exited e ↦ exited e ])
After-bind P (returned (a, w)) k next h = next a w h
After-bind P blocked k next h = tt
After-bind P (exited e) k next h = tt

-- what follows a run that has returned
abbrev resume : {W A B : Type 0} → (A → M W B) → Outcome (A × World W) → Outcome (B × World W)
resume f o = elim o [ returned (a, w) ↦ f a w | blocked ↦ blocked | exited e ↦ exited e ]

pub bind-returned :
    {W A B : Type 0} (m : M W A) (f : A → M W B) (w : World W) {a : A} {v : World W}
    → m w ≡ returned (a, v)
    → (m >>= f) w ≡ f a v
bind-returned m f w e = ap (resume f) e

pub bind-same :
    {W A B : Type 0} (m n : M W A) (f : A → M W B) (w : World W)
    → m w ≡ n w
    → (m >>= f) w ≡ (n >>= f) w
bind-same m n f w e = ap (resume f) e

-- what follows may be replaced by what does the same
pub bind-cong :
    {W A B : Type 0} (m : M W A) (f g : A → M W B) (w : World W)
    → ((a : A) (v : World W) → f a v ≡ g a v)
    → (m >>= f) w ≡ (m >>= g) w
bind-cong {W} {A} m f g w same = on (m w)
  where
    on : (o : Outcome (A × World W)) → resume f o ≡ resume g o
    on (returned (a, v)) = same a v
    on blocked = refl
    on (exited e) = refl

pub bind_assoc :
    {W A B C : Type 0} (m : M W A) (f : A → M W B) (g : B → M W C) (w : World W)
    → ((m >>= f) >>= g) w ≡ (m >>= λ a. f a >>= g) w
bind_assoc {W} {A} m f g w = on (m w)
  where
    on : (o : Outcome (A × World W)) → resume g (resume f o) ≡ resume (λ a. f a >>= g) o
    on (returned (a, v)) = refl
    on blocked = refl
    on (exited e) = refl

pub then_tt : {W : Type 0} (m : M W (Unit {0})) (w : World W) → (m >> pure tt) w ≡ m w
then_tt {W} m w = on (m w)
  where
    on :
        (o : Outcome (Unit {0} × World W))
        → elim o [ returned (_, v) ↦ returned (tt, v) | blocked ↦ blocked | exited e ↦ exited e ]
          ≡ o
    on (returned (tt, v)) = refl
    on blocked = refl
    on (exited e) = refl

-- It returns, and leaves the world as it was.
abbrev pub OnlyReads : {W A : Type 0} → M W A → World W → Type 0
OnlyReads {A} m w = (a : A) × (m w ≡ returned (a, w))

pub bind-OnlyReads :
    {W A B : Type 0} (m : M W A) (f : A → M W B) (w : World W) (h : OnlyReads m w)
    → OnlyReads (f h.0) w
    → OnlyReads (m >>= f) w
bind-OnlyReads m f w (a, e) (b, e') = (b, bind-returned m f w e ∙ e')

-- The dock mutex is free, and no system call is about to fail.
pub record IsDockQuiet {W : Type 0} (w : World W) : Type 0 where
  pub dock_free : w.sem.dock_mutex ≡ 1
  pub no_faults : w.faults ≡ []

-- `Q` holds of what a run returns, if it returns.
abbrev pub Ensures : {W A : Type 0} → (A → World W → Type 0) → Outcome (A × World W) → Type 0
Ensures Q (returned (a, w)) = Q a w
Ensures Q blocked = Unit {0}
Ensures Q (exited e) = Unit {0}

pub Ensures-returned :
    {W A : Type 0} (Q : A → World W → Type 0) (o : Outcome (A × World W)) {a : A} {w : World W}
    → Ensures Q o
    → o ≡ returned (a, w)
    → Q a w
Ensures-returned Q (returned (b, v)) h e = subst₂ Q (cc) (cc) h
Ensures-returned Q blocked h e = cc
Ensures-returned Q (exited x) h e = cc

pub Ensures-if :
    {W A : Type 0} (Q : A → World W → Type 0) (b : Bool) (x y : Outcome (A × World W))
    → (b ≡ true → Ensures Q x)
    → (b ≡ false → Ensures Q y)
    → Ensures Q (if b then x else y)
Ensures-if Q true x y hx hy = hx refl
Ensures-if Q false x y hx hy = hy refl

pub Ensures-bind :
    {W A B : Type 0} (Q : B → World W → Type 0) (o : Outcome (A × World W)) (k : A → M W B)
    → ((a : A) (w : World W) → Ensures Q (k a w))
    → Ensures Q (elim o [ returned (a, w) ↦ k a w | blocked ↦ blocked | exited e ↦ exited e ])
Ensures-bind Q (returned (a, w)) k next = next a w
Ensures-bind Q blocked k next = tt
Ensures-bind Q (exited e) k next = tt

-- What follows sees to `P`, whatever it starts from.
pub After-any :
    {W A B : Type 0} (P : World W → Type 0) (o : Outcome (A × World W)) (k : A → M W B)
    → ((a : A) (w : World W) → After P (k a w))
    → After P (elim o [ returned (a, w) ↦ k a w | blocked ↦ blocked | exited e ↦ exited e ])
After-any P (returned (a, w)) k next = next a w
After-any P blocked k next = tt
After-any P (exited e) k next = tt

pub After-returned :
    {W A : Type 0} (P : World W → Type 0) (o : Outcome (A × World W)) {a : A} {w : World W}
    → After P o
    → o ≡ returned (a, w)
    → P w
After-returned P (returned (b, v)) h e = subst P (cc) h
After-returned P blocked h e = cc
After-returned P (exited x) h e = cc

-- A run of two pieces that returns is a run of the first that returns, and then one of the second.
pub bind-inverse :
    {W A B : Type 0} (m : M W A) (f : A → M W B) (w : World W) {b : B} {v : World W}
    → (m >>= f) w ≡ returned (b, v)
    → (a : A) × (u : World W) × (m w ≡ returned (a, u)) × (f a u ≡ returned (b, v))
bind-inverse {W} {A} {B} m f w {b} {v} e = on (m w) refl
  where
    on :
        (o : Outcome (A × World W))
        → m w ≡ o
        → (a : A) × (u : World W) × (m w ≡ returned (a, u)) × (f a u ≡ returned (b, v))
    on (returned (a, u)) h = (a, u, h, cc)
    on blocked h = cc
    on (exited x) h = cc

-- What holds of the first of two pieces is known in the second.
pub Ensures-then :
    {W A B : Type 0} (P : A → World W → Type 0) (Q : B → World W → Type 0)
    (o : Outcome (A × World W)) (k : A → M W B)
    → Ensures P o
    → ((a : A) (w : World W) → P a w → Ensures Q (k a w))
    → Ensures Q (elim o [ returned (a, w) ↦ k a w | blocked ↦ blocked | exited e ↦ exited e ])
Ensures-then P Q (returned (a, w)) k h next = next a w h
Ensures-then P Q blocked k h next = tt
Ensures-then P Q (exited e) k h next = tt
