-- ===== src/Dock/Berth.antt =====
-- Who takes a truck away from the dock, while the processes round it interleave.
use so_magazyn_firmy_spedycy.Base.{
  ℕ, subst, ◌≡◌, ap, ◌∙◌, ◌⊎◌, inl, inr, arith, true, Double, ℕ_discrete,
}
use so_magazyn_firmy_spedycy.Shared.{SharedState}
use so_magazyn_firmy_spedycy.Express.Batch.{batch_truck-same}
use so_magazyn_firmy_spedycy.Dock.{
  Errand, docks, departs, shuts_down, ends, loads, delivers, has_read, Threads, perform, Move,
  Reach,
}
use so_magazyn_firmy_spedycy.Dock.Invariant.{SameDock}
use so_magazyn_firmy_spedycy.Dock.Promises.{Effect, hidden, acts, Move_acts}

module _ {W : Type 0} ⦃d : Double W⦄ where
  -- The truck `pid` is at the dock.
  abbrev pub IsAt : ℕ → SharedState W → Type 0
  IsAt pid shm = (shm.dock_truck.is_present ≡ true) × (shm.dock_truck.id ≡ pid)

  -- an errand with which the truck `pid` leaves the dock
  pub data Leaving (pid : ℕ) : Errand W → Type 0 where
    departing : Leaving pid (departs pid)
    shutting_down : Leaving pid (shuts_down pid)
    ending : Leaving pid (ends pid)

  perform-IsAt :
      (pid : ℕ) (errand : Errand W) (s : SharedState W)
      → IsAt pid s
      → IsAt pid (perform errand s) ⊎ Leaving pid errand
  unfolding perform
  perform-IsAt pid (docks my_pid a b) s (here, own) = inl (ground (arith, here, own))
  perform-IsAt pid (departs my_pid) s (here, own) = elim (ℕ_discrete pid my_pid) [
    | yes same ↦ inr (subst (λ q. Leaving pid (departs q)) same departing)
    | no other ↦ inl (ground (arith, here, own, other))
  ]
  perform-IsAt pid (shuts_down my_pid) s (here, own) = elim (ℕ_discrete pid my_pid) [
    | yes same ↦ inr (subst (λ q. Leaving pid (shuts_down q)) same shutting_down)
    | no other ↦ inl (ground (arith, here, own, other))
  ]
  perform-IsAt pid (ends my_pid) s (here, own) = elim (ℕ_discrete pid my_pid) [
    | yes same ↦ inr (subst (λ q. Leaving pid (ends q)) same ending)
    | no other ↦ inl (ground (arith, here, own, other))
  ]
  perform-IsAt pid (loads pkg) s (here, own) = inl (ground (arith, here, own))
  perform-IsAt pid (delivers draws) s (here, own) =
      inl (ground (arith, here, own, batch_truck-same draws s.dock_truck))

  same-IsAt : (pid : ℕ) (s t : SharedState W) → SameDock s t → IsAt pid s → IsAt pid t
  same-IsAt pid s t same (here, own) =
      (ap (λ u. u.is_present) same.truck ∙ here, ap (λ u. u.id) same.truck ∙ own)

  -- While trucks, dispatchers and P4 workers interleave piece by piece: a move from a reachable state in which the
  -- truck `pid` is at the dock leaves it there, or is one with which this truck itself leaves. No truck
  -- docks over another, and none is taken for another.
  pub Move-IsAt :
      {n : ℕ} {s t : Threads W} (pid : ℕ)
      → Reach n s
      → Move n s t
      → IsAt pid s.world.shm
      → IsAt pid t.world.shm
        ⊎ ((i : ℕ) × (errand : Errand W) × (seen : SharedState W) × (s.at i ≡ has_read errand seen)
            × Leaving pid errand)
  Move-IsAt {n} {s} {t} pid r move at = still (Move_acts r move)
    where
      still :
          Effect s t
          → IsAt pid t.world.shm
            ⊎ ((i : ℕ) × (errand : Errand W) × (seen : SharedState W) × (s.at i
                  ≡ has_read errand seen)
                × Leaving pid errand)
      still (hidden same) = inl (same-IsAt pid s.world.shm t.world.shm same at)
      still (acts i errand {seen} stands same then) =
          elim (perform-IsAt pid errand s.world.shm at) [
            | inl kept ↦ inl (same-IsAt pid (perform errand s.world.shm) t.world.shm same kept)
            | inr left ↦ inr (i, errand, seen, stands, left)
          ]
