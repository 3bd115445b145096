-- ===== src/Wsq.antt =====
-- include/boost/task/detail/wsq.hpp and src/detail/wsq.cpp: the work-stealing queue of a worker. The owner
-- puts and takes at the back of a growing ring, other workers steal at its front. Here each call
-- runs alone; in Wsq/Shared the owner and the thieves overlap, and Wsq/Race has a put during a steal.
pub mod Window
pub mod Inv
pub mod Grow
pub mod Deque
pub mod Refine
pub mod Race
pub mod Shared
mod Tests
use boost_task.Prelude.{
  ℕ, zero, suc, ◌+◌, ◌-◌, ◌*◌, ◌^◌, ◌%◌, Bool, true, false, not, Option, none, some, List, [], ◌∷◌,
  set, get_or, replicate, ltb, leb, ◌==◌, if◌then◌else◌, bit_and,
}
use boost_task.Prelude.Int.{ℤ, pos, ltb_ℤ, signed}
use boost_task.Semaphore.{Sysv, Call, returns, asleep, invalid_argument, system_error}
use boost_task.FastSemaphore
use Deque.{Op, Reply}
use boost_task.FastSemaphore.{Fast}

-- `unsigned int` and the bits of `int`
abbrev pub u32 : ℕ → ℕ
u32 n = n % 2 ^ 32

-- `capacity_` and `mask_` are the bits of an `int`; the slots of `array_` past its end are never touched
-- (Wsq/Inv), a read there would give the empty callable.
pub record Wsq (T S : Type 0) : Type 0 where
  pub array : List T
  pub capacity : ℕ
  pub mask : ℕ
  pub head_idx : ℕ
  pub tail_idx : ℕ
  pub fsem : S

abbrev pub initial_size : ℕ
initial_size = 32

module _ {T S : Type 0} where
  -- The slot of an index.
  abbrev pub slot : Wsq T S → ℕ → ℕ
  slot w i = bit_and i w.mask

  unfoldable pub empty : Wsq T S → Bool
  empty w = leb w.tail_idx w.head_idx

  unfoldable pub size : Wsq T S → ℕ
  size w = u32 (w.tail_idx + 2 ^ 32 - w.head_idx)

  -- `array_[tail & mask_] = ca; tail_idx_.fetch_add( 1)`
  unfoldable pub store : Wsq T S → ℕ → T → Wsq T S
  store w tail ca = record w {
    array = set w.array (slot w tail) ca;
    tail_idx = u32 (w.tail_idx + 1);
  }

  -- The test that lets `put` go without the lock.
  unfoldable pub has_room : Wsq T S → Bool
  has_room w = leb w.tail_idx (u32 (w.head_idx + w.mask))

module _ {T S : Type 0} (vacant : T) where
  unfoldable pub construct : S → Wsq T S
  construct fsem = record {
    array = replicate initial_size vacant;
    capacity = initial_size;
    mask = initial_size - 1;
    head_idx = 0;
    tail_idx = 0;
    fsem = fsem;
  }

  -- `for ( int i( 0); i != count; ++i) array[i] = array_[(i + head) & mask_]` with the rounds left.
  unfoldable pub copy_loop : ℕ → ℕ → Wsq T S → List T → List T
  copy_loop zero i w array = array
  copy_loop (suc rounds) i w array =
      copy_loop rounds (suc i) w
        (set array i (get_or w.array (slot w (u32 (i + w.head_idx))) vacant))

  unfoldable pub grow : Wsq T S → ℕ → Wsq T S
  unfolding copy_loop
  grow w count =
      let capacity : ℕ = u32 (2 * w.capacity) in
      record w {
        array = copy_loop count 0 w (replicate capacity vacant);
        capacity = capacity;
        mask = u32 (2 * w.mask + 1);
        head_idx = 0;
        tail_idx = count;
      }

  -- `put` up to its call of `fsem_.post()`.
  unfoldable pub insert : Wsq T S → T → Wsq T S
  insert w ca =
      let count : ℕ = size w in
      if has_room w
      then store w w.tail_idx ca
      else if not (ltb_ℤ (signed count) (signed w.mask))
      then store (grow w count) count ca
      else store w w.tail_idx ca

  -- The second part is the caller's `ca` after the call: `ca.swap` leaves its old value in the slot.
  unfoldable pub try_take : Wsq T S → T → Bool × T × Wsq T S
  try_take w ca =
      let tail : ℕ = w.tail_idx - 1 in
      let lowered : Wsq T S = record w { tail_idx = tail } in
      if w.tail_idx == 0
      then (false, ca, w)
      else if leb w.head_idx tail
      then (
        true,
        get_or w.array (slot w tail) vacant,
        record lowered { array = set w.array (slot w tail) ca },
      )
      else (false, ca, record lowered { tail_idx = u32 (tail + 1) })

  -- `owns_lock` is the answer of the try-lock.
  unfoldable pub try_steal : Bool → Wsq T S → T → Bool × T × Wsq T S
  try_steal owns_lock w ca =
      let head : ℕ = w.head_idx in
      let raised : Wsq T S = record w { head_idx = u32 (head + 1) } in
      if owns_lock
      then if ltb head w.tail_idx
        then (
          true,
          get_or w.array (slot w head) vacant,
          record raised { array = set w.array (slot w head) ca },
        )
        else (false, ca, record raised { head_idx = head })
      else (false, ca, w)

  -- Calls in a row, with their answers; of `put` what it does up to `fsem_.post()`.
  unfoldable pub run : Wsq T S → List (Op T) → List (Reply T)
  run w [] = []
  run w (Op.put ca ∷ ops) = none ∷ run (insert w ca) ops
  run w (Op.take ca ∷ ops) = let (taken, out, w') = try_take w ca in some (taken, out) ∷ run w' ops
  run w (Op.steal lock ca ∷ ops) =
      let (taken, out, w') = try_steal lock w ca in some (taken, out) ∷ run w' ops

module _ (os : Sysv) {T : Type 0} (vacant : T) where
  with_fsem : Wsq T (Fast os) → Call (Fast os) → Call (Wsq T (Fast os))
  with_fsem w (returns f) = returns (record w { fsem = f })
  with_fsem w (asleep f) = asleep (record w { fsem = f })
  with_fsem w (invalid_argument f) = invalid_argument (record w { fsem = f })
  with_fsem w (system_error f) = system_error (record w { fsem = f })

  unfoldable pub put : Wsq T (Fast os) → T → Call (Wsq T (Fast os))
  unfolding with_fsem
  put w ca =
      let w' : Wsq T (Fast os) = insert vacant w ca in
      with_fsem w' (FastSemaphore.post os w'.fsem (pos 1))
