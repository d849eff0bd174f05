-- ===== src/Belt/Ring.antt =====
-- include/Belt.h: the indices of the circular buffer, and what the sections of `push` and `pop` behind their
-- locks do to what is on it.
use so_magazyn_firmy_spedycy.Base.{
  ◌+◌, ◌%◌, ◌≤◌, ◌<◌, ◌≡◌, true, false, arith, Double, length, length-set, leb,
}
use so_magazyn_firmy_spedycy.Shared.{SharedState, Package, zero_package}
use so_magazyn_firmy_spedycy.Belt.Class.{place, take_off, next_package, numbered}
use so_magazyn_firmy_spedycy.Belt.Queue
use so_magazyn_firmy_spedycy.Belt.Queue.{View}
use so_magazyn_firmy_spedycy.Belt.Slots.{slots, length-slots, slots-push, slots-pop}

module _ {W : Type 0} where
  -- The indices agree with the count.
  pub record IsRing (shm : SharedState W) : Type 0 where
    pub size : length shm.belt ≡ 10
    pub head_in : shm.head < 10
    pub count_in : shm.current_items_count ≤ 10
    pub tail_at : shm.tail ≡ (shm.head + shm.current_items_count) % 10

module _ {W : Type 0} ⦃d : Double W⦄ where
  abbrev pub shown : SharedState W → View W
  shown s = record {
    items = slots s.belt s.head s.current_items_count;
    created = s.total_packages_created;
  }

  -- a method gave `p` and left `s'`, as the queue does
  abbrev pub Serves : (Package W × View W) → Package W → SharedState W → Type 0
  Serves answer p s' = IsRing s' × (answer ≡ (p, shown s'))

  pub placed :
      (pkg : Package W) (s : SharedState W)
      → IsRing s
      → leb 10 s.current_items_count ≡ false
      → Serves (Queue.offer pkg (shown s)) (numbered pkg s) (place pkg s)
  unfolding Queue.offer place
  placed pkg s i room = (
    ground (arith, length-set s.belt s.tail (numbered pkg s)),
    ground (
      arith,
      length-slots s.belt s.head s.current_items_count,
      slots-push s.belt (numbered pkg s) s.head s.current_items_count i.size i.head_in,
    ),
  )

  pub refused :
      (pkg : Package W) (s : SharedState W)
      → IsRing s
      → leb 10 s.current_items_count ≡ true
      → Serves (Queue.offer pkg (shown s)) pkg s
  unfolding Queue.offer
  refused pkg s i full = (i, ground (arith, length-slots s.belt s.head s.current_items_count))

  pub taken :
      (s : SharedState W)
      → IsRing s
      → leb s.current_items_count 0 ≡ false
      → Serves (Queue.poll (shown s)) (next_package s) (take_off s)
  unfolding Queue.poll take_off
  taken s i some_left = (
    ground (arith, length-set s.belt s.head zero_package),
    ground (arith, slots-pop s.belt zero_package s.head s.current_items_count i.head_in),
  )

  pub none_left :
      (s : SharedState W)
      → IsRing s
      → leb s.current_items_count 0 ≡ true
      → Serves (Queue.poll (shown s)) zero_package s
  unfolding Queue.poll
  none_left s i empty = (i, ground arith)
