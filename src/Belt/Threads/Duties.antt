-- ===== src/Belt/Threads/Duties.antt =====
-- include/Belt.h and include/SessionManager.h: what the methods that take the belt's mutex, but `push` and `pop`,
-- leave alone.
use so_magazyn_firmy_spedycy.Base.{◌≡◌, arith, inl, inr, Option-cases}
use so_magazyn_firmy_spedycy.Shared.{SharedState}
use so_magazyn_firmy_spedycy.Session.{enter, free_slot}
use so_magazyn_firmy_spedycy.Belt.Threads.{
  Duty, registering, unregistering, entering, closing, spawning, finishing, perform, with_belt,
}

-- The belt is left alone.
pub record KeepsBelt {W : Type 0} (s t : SharedState W) : Type 0 where
  pub belt : t.belt ≡ s.belt
  pub head : t.head ≡ s.head
  pub tail : t.tail ≡ s.tail
  pub count : t.current_items_count ≡ s.current_items_count
  pub created : t.total_packages_created ≡ s.total_packages_created

pub perform-KeepsBelt :
    {W : Type 0} (duty : Duty) (s : SharedState W) → KeepsBelt s (perform duty s)
unfolding perform enter
perform-KeepsBelt registering s = ground arith
perform-KeepsBelt unregistering s = ground arith
perform-KeepsBelt (entering name role org_id max_procs pid) s =
    elim (Option-cases (free_slot s.users)) [ inl full ↦ ground arith | inr (k, at) ↦ ground arith ]
perform-KeepsBelt (closing i) s = ground arith
perform-KeepsBelt (spawning i) s = ground arith
perform-KeepsBelt (finishing i) s = ground arith

-- A duty assigns no field but those that the belt mutex guards.
pub with_belt-perform :
    {W : Type 0} (duty : Duty) (s : SharedState W) → with_belt (perform duty s) s ≡ perform duty s
unfolding perform enter
with_belt-perform registering s = ground arith
with_belt-perform unregistering s = ground arith
with_belt-perform (entering name role org_id max_procs pid) s =
    elim (Option-cases (free_slot s.users)) [ inl full ↦ ground arith | inr (k, at) ↦ ground arith ]
with_belt-perform (closing i) s = ground arith
with_belt-perform (spawning i) s = ground arith
with_belt-perform (finishing i) s = ground arith
