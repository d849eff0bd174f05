-- ===== src/Worker/Shift.antt =====
-- include/Worker.h: the whole `run` of a worker that nobody disturbs.
use mathlib.Core.List.{append_assoc, append-nil}
use so_magazyn_firmy_spedycy.Base.{
  ℕ, suc, ◌+◌, ◌-◌, ◌≤◌, ◌<◌, ◌^◌, ◌≡◌, refl, sym, ap, subst, ◌∙◌, arith, true, some, List, [], ◌∷◌,
  ◌++◌, map, Double, length, int_inc, if_true, if◌then◌else◌,
}
use so_magazyn_firmy_spedycy.Shared.{Package}
use so_magazyn_firmy_spedycy.Manager.{World, returned, pure, ◌>>◌, bind-returned}
use so_magazyn_firmy_spedycy.Belt.{register_worker, unregister_worker}
use so_magazyn_firmy_spedycy.Belt.Class.{place, numbered}
use so_magazyn_firmy_spedycy.Belt.Slots.{slots-push}
use so_magazyn_firmy_spedycy.Belt.Refine.{IsValid, view, Keeps, push-IsValid}
use so_magazyn_firmy_spedycy.Session.{SessionManager}
use so_magazyn_firmy_spedycy.Session.Table.{entry}
use so_magazyn_firmy_spedycy.Worker.{Turn, new_package, produce, produce_loop, work}
use so_magazyn_firmy_spedycy.Worker.Turns.{push-room, produce_lem}

abbrev pub me : ℕ → SessionManager
me k = record { current_session = some k }

module _ {W : Type 0} ⦃d : Double W⦄ where
  abbrev pub undisturbed : Turn W → Turn W
  undisturbed turn = record turn { others = λ w. w }

  -- the packages of some turns, with the numbers that follow `n`
  abbrev pub made : ℕ → List (Turn W) → ℕ → List (Package W)
  made pid [] n = []
  made pid (turn ∷ turns) n =
      record (new_package pid turn) { id = int_inc n } ∷ made pid turns (int_inc n)

  -- A session that may start a sub-process, on a valid belt, in a running system.
  pub record Ready (k : ℕ) (w : World W) : Type 0 where
    pub valid : IsValid w
    pub running : w.shm.running ≡ true
    pub listed : k < length w.shm.users
    pub allowed : (entry w.shm.users k).current_processes < (entry w.shm.users k).max_processes
    pub small : (entry w.shm.users k).max_processes < 2 ^ 31

  -- What a shift leaves as it was.
  pub record Same (w v : World W) : Type 0 where
    pub users : v.shm.users ≡ w.shm.users
    pub workers : v.shm.current_workers_count ≡ w.shm.current_workers_count
    pub truck : v.shm.dock_truck ≡ w.shm.dock_truck
    pub up : v.shm.running ≡ w.shm.running
    pub dock : v.sem.dock_mutex ≡ w.sem.dock_mutex
    pub queue : v.queue ≡ w.queue

  abbrev pushed : Package W → World W → World W
  pushed pkg w = record w {
    shm = place pkg w.shm;
    sem = record w.sem { empty_slots = w.sem.empty_slots - 1; full_slots = w.sem.full_slots + 1 };
  }

  pushed-IsValid :
      (pkg : Package W) (w : World W)
      → IsValid w
      → w.shm.current_items_count < 10
      → IsValid (pushed pkg w)
  pushed-IsValid pkg w v room =
      subst Keeps (push-room pkg w v.quiet v.unlocked (omega (arith, v.empty)) room)
        (push-IsValid pkg v)

  pushed-items :
      (pkg : Package W) (w : World W)
      → IsValid w
      → w.shm.current_items_count < 10
      → (view (pushed pkg w)).items ≡ (view w).items ++ numbered pkg w.shm ∷ []
  unfolding place
  pushed-items pkg w v room = ground (
    arith,
    v.tail_at,
    slots-push w.shm.belt (numbered pkg w.shm) w.shm.head w.shm.current_items_count v.size v.head_in
        room,
  )

  pushed-Same : (pkg : Package W) (w : World W) → Same w (pushed pkg w)
  unfolding place
  pushed-Same pkg w = ground arith

  count-pushed :
      (pkg : Package W) (w : World W)
      → IsValid w
      → w.shm.current_items_count < 10
      → (pushed pkg w).shm.current_items_count ≡ suc w.shm.current_items_count
  unfolding place
  count-pushed pkg w v room = omega arith

  Ready-pushed :
      (pkg : Package W) (k : ℕ) (w : World W)
      → Ready k w
      → w.shm.current_items_count < 10
      → Ready k (pushed pkg w)
  unfolding place
  Ready-pushed pkg k w r room = record {
    valid = pushed-IsValid pkg w r.valid room;
    running = r.running;
    listed = r.listed;
    allowed = r.allowed;
    small = r.small;
  }

  Same-trans : {u v w : World W} → Same u v → Same v w → Same u w
  Same-trans a b = ground arith

  abbrev Later : ℕ → ℕ → List (Turn W) → World W → World W → Type 0
  Later pid k turns w v =
      Ready k v
      × Same w v
      × ((view v).items ≡ (view w).items ++ made pid turns w.shm.total_packages_created)

  loop_lem :
      (pid k : ℕ) (turns : List (Turn W)) (w : World W)
      → Ready k w
      → length turns + w.shm.current_items_count ≤ 10
      → (v : World W) × (produce_loop pid (me k) (map undisturbed turns) w ≡ returned (tt, v))
        × Later pid k turns w v
  unfolding produce_loop new_package place
  loop_lem pid k [] w r room = (w, refl, (r, ground arith, sym (append-nil (view w).items)))
  loop_lem pid k (turn ∷ turns) w r room =
      let pkg = new_package pid turn in
      let (v, ran, (ready, same, items)) =
        loop_lem pid k turns (pushed pkg w) (Ready-pushed pkg k w r (omega arith))
          (omega (arith, count-pushed pkg w r.valid (omega arith))) in
      (
        v,
        if_true w.shm.running _ _ r.running
            ∙ (bind-returned (produce pid (me k) (undisturbed turn))
                  (λ _. produce_loop pid (me k) (map undisturbed turns)) w
                  (produce_lem pid k (undisturbed turn) w r.valid.quiet r.valid.unlocked
                    (omega (arith, r.valid.empty)) (omega arith) r.listed r.allowed r.small)
                ∙ ran),
        (
          ready,
          Same-trans (pushed-Same pkg w) same,
          items
              ∙ (ap (λ l. l ++ made pid turns (int_inc w.shm.total_packages_created))
                    (pushed-items pkg w r.valid (omega arith))
                  ∙ append_assoc (view w).items (numbered pkg w.shm ∷ [])
                      (made pid turns (int_inc w.shm.total_packages_created))),
        ),
      )

  abbrev with_workers : ℕ → World W → World W
  with_workers n w = record w { shm = record w.shm { current_workers_count = n } }

  Ready-with_workers : (n k : ℕ) (w : World W) → Ready k w → Ready k (with_workers n w)
  Ready-with_workers n k w r = record {
    valid = ground (arith, r.valid);
    running = r.running;
    listed = r.listed;
    allowed = r.allowed;
    small = r.small;
  }

  register-room :
      (w : World W)
      → IsValid w
      → w.shm.current_workers_count < 100
      → register_worker w ≡ returned (true, with_workers (w.shm.current_workers_count + 1) w)
  unfolding register_worker
  register-room w v few = ground arith

  unregister-some :
      (n : ℕ) (w : World W)
      → IsValid w
      → w.shm.current_workers_count ≡ n + 1
      → unregister_worker w ≡ returned (tt, with_workers n w)
  unfolding unregister_worker
  unregister-some n w v e = ground arith

  -- A worker that nobody disturbs, on a valid belt with room for all its turns, in a running system with
  -- fewer than 100 workers, with a session that may start a sub-process (of a quota below 2^31): its `run`
  -- returns, the packages of its turns lie behind those that were on the belt, numbered on, and
  -- the session table, the count of workers, the truck and the messages are as before.
  pub work_lem :
      (pid k : ℕ) (turns : List (Turn W)) (w : World W)
      → Ready k w
      → w.shm.current_workers_count < 100
      → length turns + w.shm.current_items_count ≤ 10
      → (v : World W) × (work pid (me k) (map undisturbed turns) w ≡ returned (tt, v))
        × IsValid v
        × Same w v
        × ((view v).items ≡ (view w).items ++ made pid turns w.shm.total_packages_created)
  unfolding work
  work_lem pid k turns w r few room =
      let n = w.shm.current_workers_count in
      let started = with_workers (n + 1) w in
      let (u, ran, (ready, same, items)) =
        loop_lem pid k turns started (Ready-with_workers (n + 1) k w r) room in
      let done = Ready-with_workers n k u ready in
      (
        with_workers n u,
        bind-returned register_worker
              (λ registered.
                if registered
                then (produce_loop pid (me k) (map undisturbed turns) >> unregister_worker)
                else pure tt)
              w (register-room w r.valid few)
            ∙ (bind-returned (produce_loop pid (me k) (map undisturbed turns))
                  (λ _. unregister_worker) started ran
                ∙ unregister-some n u ready.valid same.workers),
        done.valid,
        record {
          users = same.users;
          workers = refl;
          truck = same.truck;
          up = same.up;
          dock = same.dock;
          queue = same.queue;
        },
        items,
      )
