-- ===== src/Dispatcher/Verdict.antt =====
-- include/Dispatcher.h: what a turn of the loading loop comes to, told from the fields of the truck.
use mathlib.Core.List.{append-nil}
use so_magazyn_firmy_spedycy.Base.{
  ◌≤◌, ◌≡◌, Bool, true, false, [], ◌∷◌, ◌++◌, ◌||◌, leb, leb→le, refl, ◌⊎◌, inl, inr, arith, Double,
  decimal, ◌⊕◌, ◌⊗◌, ◌<=◌, int_inc, Bool-cases,
}
use so_magazyn_firmy_spedycy.Shared.{
  Package, TruckState, CommandMessage, signal_code, signal_departure,
}
use so_magazyn_firmy_spedycy.Manager.{World, returned, IsDockQuiet}
use so_magazyn_firmy_spedycy.Dispatcher.{try_load}
use so_magazyn_firmy_spedycy.Dispatcher.Class.{fits, load, is_full}
use so_magazyn_firmy_spedycy.Dispatcher.Loading.{try_load_lem}

or_cases : (a b c : Bool) → (a || b || c) ≡ true → (a ≡ true) ⊎ (b ≡ true) ⊎ (c ≡ true)
or_cases true b c e = inl refl
or_cases false true c e = inr (inl refl)
or_cases false false c e = inr (inr e)

module _ {W : Type 0} ⦃d : Double W⦄ where
  -- the truck with one package more
  abbrev pub with_package : Package W → TruckState W → TruckState W
  with_package pkg truck = record truck {
    current_load = int_inc truck.current_load;
    current_weight = truck.current_weight ⊕ pkg.weight;
    current_volume = truck.current_volume ⊕ pkg.volume;
  }

  -- Neither limit is passed with the package on it.
  abbrev pub HasRoom : Package W → TruckState W → Type 0
  HasRoom pkg truck =
      (((truck.current_weight ⊕ pkg.weight) <= truck.max_weight) ≡ true)
      × (((truck.current_volume ⊕ pkg.volume) <= truck.max_volume) ≡ true)

  -- It has its number of packages, or 99 % of its weight or of its volume.
  abbrev pub IsLaden : TruckState W → Type 0
  IsLaden truck =
      (truck.max_load ≤ truck.current_load)
      ⊎ (((truck.max_weight ⊗ decimal 99 2) <= truck.current_weight) ≡ true)
      ⊎ (((truck.max_volume ⊗ decimal 99 2) <= truck.current_volume) ≡ true)

  abbrev pub dismissed : TruckState W → CommandMessage
  dismissed truck = record { mtype = truck.id; command_id = signal_code signal_departure }

  -- A turn with `pkg` in the world `w`: whether it is loaded, and the world after it.
  pub data Verdict (pkg : Package W) (w : World W) : Bool → World W → Type 0 where
    no_truck : w.shm.dock_truck.is_present ≡ false → Verdict pkg w false w
    no_room :
        w.shm.dock_truck.is_present ≡ true
        → ¬ HasRoom pkg w.shm.dock_truck
        → Verdict pkg w false (record w { queue = w.queue ++ dismissed w.shm.dock_truck ∷ [] })
    stays :
        w.shm.dock_truck.is_present ≡ true
        → HasRoom pkg w.shm.dock_truck
        → ¬ IsLaden (with_package pkg w.shm.dock_truck)
        → Verdict pkg w true
            (record w { shm = record w.shm { dock_truck = with_package pkg w.shm.dock_truck } })
    leaves :
        w.shm.dock_truck.is_present ≡ true
        → HasRoom pkg w.shm.dock_truck
        → IsLaden (with_package pkg w.shm.dock_truck)
        → Verdict pkg w true (record w {
          shm = record w.shm { dock_truck = with_package pkg w.shm.dock_truck };
          queue = w.queue ++ dismissed w.shm.dock_truck ∷ [];
        })

  pub HasRoom-fits :
      (pkg : Package W) (truck : TruckState W) → HasRoom pkg truck → fits pkg truck ≡ true
  HasRoom-fits pkg truck (weight, volume) = ground (arith, weight, volume)

  fits-HasRoom :
      (pkg : Package W) (truck : TruckState W) → fits pkg truck ≡ true → HasRoom pkg truck
  fits-HasRoom pkg truck e = (ground (arith, e), ground (arith, e))

  is_full-IsLaden : (truck : TruckState W) → is_full truck ≡ true → IsLaden truck
  is_full-IsLaden truck e = elim (or_cases (leb truck.max_load truck.current_load) _ _ e) [
    | inl count ↦ inl (leb→le truck.max_load truck.current_load count)
    | inr heavy ↦ inr heavy
  ]

  IsLaden-is_full : (truck : TruckState W) → IsLaden truck → is_full truck ≡ true
  IsLaden-is_full truck (inl h) = ground (arith, h)
  IsLaden-is_full truck (inr (inl h)) = ground (arith, h)
  IsLaden-is_full truck (inr (inr h)) = ground (arith, h)

  -- With the dock mutex free and no failing call, a turn of the loop returns, and: with no truck at the dock it
  -- changes nothing; with one that the package would take over a limit of weight or volume it loads
  -- nothing and sends that truck SIGNAL_DEPARTURE; otherwise it adds the package to the truck's weight,
  -- volume and count, and sends SIGNAL_DEPARTURE exactly if the truck is then laden.
  pub try_load-Verdict :
      (pkg : Package W) (w : World W)
      → IsDockQuiet w
      → (loaded : Bool) × (v : World W) × (try_load pkg w ≡ returned (loaded, v))
        × Verdict pkg w loaded v
  try_load-Verdict pkg w q = elim (Bool-cases w.shm.dock_truck.is_present) [
    | inr gone ↦ (false, w, ground (arith, try_load_lem pkg w q, append-nil w.queue), no_truck gone)
    | inl here ↦ elim (Bool-cases (fits pkg w.shm.dock_truck)) [
      | inr full ↦ (
        false,
        _,
        ground (arith, try_load_lem pkg w q),
        no_room here
            (λ room. absurd (ground (arith, HasRoom-fits pkg w.shm.dock_truck room, full))),
      )
      | inl room ↦ elim (Bool-cases (is_full (load pkg w.shm.dock_truck))) [
        | inl laden ↦ (
          true,
          _,
          ground (arith, try_load_lem pkg w q),
          leaves here (fits-HasRoom pkg w.shm.dock_truck room)
              (is_full-IsLaden (with_package pkg w.shm.dock_truck) laden),
        )
        | inr light ↦ (
          true,
          _,
          ground (arith, try_load_lem pkg w q, append-nil w.queue),
          stays here (fits-HasRoom pkg w.shm.dock_truck room) (λ l.
              absurd
                (ground (arith, IsLaden-is_full (with_package pkg w.shm.dock_truck) l, light))),
        )
      ]
    ]
  ]
