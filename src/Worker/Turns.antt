-- ===== src/Worker/Turns.antt =====
-- include/Worker.h: one turn of the loop, and a whole shift.
use so_magazyn_firmy_spedycy.Base.{
  ℕ, zero, suc, ◌+◌, ◌-◌, ◌≤◌, ◌<◌, ◌^◌, ◌≡◌, refl, ◌∙◌, arith, true, some, [], Double, decimal,
  ◌<=◌, IsOrdered, length, set, get_or-set_self, set-set, set_self,
}
use so_magazyn_firmy_spedycy.Shared.{
  Package, TruckState, UserSession, vol_c, zero_session, status_normal,
}
use so_magazyn_firmy_spedycy.Manager.{World, returned, bind-returned}
use so_magazyn_firmy_spedycy.Truck.Class.{randomize_truck_specs}
use so_magazyn_firmy_spedycy.Belt.{push}
use so_magazyn_firmy_spedycy.Belt.Class.{place, numbered}
use so_magazyn_firmy_spedycy.Session.{
  SessionManager, try_spawn_process, report_process_finished, spawned, write_user, finished,
}
use so_magazyn_firmy_spedycy.Session.Outcome.{IsQuiet, spawn-at, finish-at}
use so_magazyn_firmy_spedycy.Session.Table.{entry}
use so_magazyn_firmy_spedycy.Dispatcher.Class.{fits}
use so_magazyn_firmy_spedycy.Dispatcher.Loop.{fresh_truck_fits}
use so_magazyn_firmy_spedycy.Worker.{Turn, typed, new_package, produce}

module _ {W : Type 0} ⦃d : Double W⦄ where
  volume-typed :
      (n : ℕ) (weight : W) (p : Package W)
      → IsOrdered W
      → n ≤ 2
      → ((typed n weight p).volume <= vol_c) ≡ true
  volume-typed zero weight p o h = o.literal_le 19456 99712 6 (omega arith)
  volume-typed (suc zero) weight p o h = o.literal_le 46208 99712 6 (omega arith)
  volume-typed (suc (suc zero)) weight p o h = o.literal_le 99712 99712 6 (omega arith)
  volume-typed (suc (suc (suc n))) weight p o h = absurd (omega arith)

  weight-typed : (n : ℕ) (weight : W) (p : Package W) → n ≤ 2 → (typed n weight p).weight ≡ weight
  weight-typed zero weight p h = refl
  weight-typed (suc zero) weight p h = refl
  weight-typed (suc (suc zero)) weight p h = refl
  weight-typed (suc (suc (suc n))) weight p h = absurd (omega arith)

  -- With comparisons as `IsOrdered` says: whatever the stack holds, a package of type A, B or C whose
  -- weight is drawn up to 25 kg fits any truck that has just docked with at least 200 kg and 1 m³.
  pub new_package-fits :
      (pid truck_pid : ℕ) (turn : Turn W) (truck : TruckState W) (a b : W)
      → IsOrdered W
      → turn.type_roll ≤ 2
      → (turn.weight <= decimal 25 0) ≡ true
      → (decimal 200 0 <= a) ≡ true
      → (decimal 1000000 6 <= b) ≡ true
      → fits (new_package pid turn) (randomize_truck_specs truck_pid a b truck) ≡ true
  unfolding new_package
  new_package-fits pid truck_pid turn truck a b o h heavy ha hb =
      fresh_truck_fits (new_package pid turn) truck truck_pid a b o
        (rw
          (weight-typed turn.type_roll turn.weight
            (record turn.garbage { creator_pid = pid; status = status_normal }) h)
          heavy)
        (volume-typed turn.type_roll turn.weight
          (record turn.garbage { creator_pid = pid; status = status_normal }) o h)
        ha hb

  pub push-room :
      (pkg : Package W) (w : World W)
      → w.faults ≡ []
      → w.sem.mutex_belt ≡ 1
      → 0 < w.sem.empty_slots
      → w.shm.current_items_count < 10
      → push pkg w
        ≡ returned (
          numbered pkg w.shm,
          record w {
            shm = place pkg w.shm;
            sem = record w.sem {
              empty_slots = w.sem.empty_slots - 1;
              full_slots = w.sem.full_slots + 1;
            };
          },
        )
  unfolding push
  push-room pkg w f m e c = ground arith

  -- With the belt mutex free, no failing call, room on the belt and a sub-process left to the session (of
  -- a quota below 2^31):
  -- a turn puts its package on the belt with the next number, and leaves the table of sessions as it
  -- was.
  pub produce_lem :
      (pid k : ℕ) (turn : Turn W) (w : World W)
      → w.faults ≡ []
      → w.sem.mutex_belt ≡ 1
      → 0 < w.sem.empty_slots
      → w.shm.current_items_count < 10
      → k < length w.shm.users
      → (entry w.shm.users k).current_processes < (entry w.shm.users k).max_processes
      → (entry w.shm.users k).max_processes < 2 ^ 31
      → produce pid (record { current_session = some k }) turn w
        ≡ returned (
          tt,
          record w {
            shm = place (new_package pid turn) w.shm;
            sem = record w.sem {
              empty_slots = w.sem.empty_slots - 1;
              full_slots = w.sem.full_slots + 1;
            };
          },
        )
  unfolding produce place
  produce_lem pid k turn w f m e c lt p small =
      bind-returned (try_spawn_process me) _ w ((spawn-at k w q).0 p)
      ∙ (bind-returned (push (new_package pid turn)) (λ _. report_process_finished me) begun
            (push-room (new_package pid turn) begun f m e c)
          ∙ (finish-at k pushed (record { unlocked = m; no_faults = f }) (ground (arith, same))
              ∙ ground (
                arith,
                same,
                back,
                set-set w.shm.users k (spawned u) u,
                set_self w.shm.users k zero_session,
              )))
    where
      me : SessionManager
      me = record { current_session = some k }

      u : UserSession
      u = entry w.shm.users k

      q : IsQuiet w
      q = record { unlocked = m; no_faults = f }

      begun : World W
      begun = record w { shm = write_user k (spawned u) w.shm }

      pushed : World W
      pushed = record begun {
        shm = place (new_package pid turn) begun.shm;
        sem = record w.sem {
          empty_slots = w.sem.empty_slots - 1;
          full_slots = w.sem.full_slots + 1;
        };
      }

      same : entry (set w.shm.users k (spawned u)) k ≡ spawned u
      same = get_or-set_self w.shm.users k (spawned u) zero_session lt

      back : finished (spawned u) ≡ u
      back = ground arith
