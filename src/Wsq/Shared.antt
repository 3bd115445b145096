-- ===== src/Wsq/Shared.antt =====
-- src/detail/wsq.cpp, with the owner and the thieves at once: the accesses to the indices and to the slots
-- are steps of their own. Only one thief has the lock; the others' try-locks fail. A `put` is one
-- step, since a thief sees no more of it than its last access; so is what the owner does under the lock.
pub mod Inv
mod Steps
pub mod Linear
use boost_task.Prelude.{
  ℕ, ◌+◌, ◌-◌, Bool, true, false, ◌||◌, Option, none, some, List, [], ◌∷◌, get_or, set, ltb, leb,
  ◌==◌, if◌then◌else◌,
}
use boost_task.Wsq.{u32, Wsq, slot, has_room, insert}
use boost_task.Wsq.Deque.{Op, Reply}

-- Where the owner stands in `try_take`, with its local `tail` and the caller's variable: about to load the
-- head index, about to swap without the lock, about to take the lock.
pub data Owner (T : Type 0) : Type 0 where
  idle : Owner T
  looking : ℕ → T → Owner T
  swapping : ℕ → T → Owner T
  wanting : ℕ → T → Owner T

-- Where the thief with the lock stands in `try_steal`, with its local `head`: about to load the tail index,
-- about to swap.
pub data Thief (T : Type 0) : Type 0 where
  away : Thief T
  raised : ℕ → T → Thief T
  grabbing : ℕ → T → Thief T

pub record Shared (T S : Type 0) : Type 0 where
  pub ring : Wsq T S
  pub owner : Owner T
  pub thief : Thief T

pub data Event (T : Type 0) : Type 0 where
  puts : T → Event T
  takes : T → Event T
  looks : Event T
  swaps : Event T
  relocks : Event T
  steals : T → Event T
  checks : Event T
  grabs : Event T

-- What a step answers, where it ends a call: the call, with the answer of its try-lock, and its reply. A
-- steal that finds nothing counts as one whose try-lock failed.
abbrev pub Ended : Type 0 → Type 0
Ended T = Option (Op T × Reply T)

unfoldable pub is_away : {T : Type 0} → Thief T → Bool
is_away away = true
is_away (raised h ca) = false
is_away (grabbing h ca) = false

unfoldable pub emit : {T : Type 0} → Ended T → List (Op T × Reply T) → List (Op T × Reply T)
emit none log = log
emit (some call) log = call ∷ log

module _ {T S : Type 0} (vacant : T) where
  -- A `put` that finds no room waits for the lock.
  unfoldable pub put_step : Shared T S → Owner T → T → Shared T S × Ended T
  unfolding is_away
  put_step s idle ca =
      if has_room s.ring || is_away s.thief
      then (record s { ring = insert vacant s.ring ca }, some (Op.put ca, none))
      else (s, none)
  put_step s (looking t ca') ca = (s, none)
  put_step s (swapping t ca') ca = (s, none)
  put_step s (wanting t ca') ca = (s, none)

  -- `try_take` up to `tail_idx_.exchange( tail)`
  unfoldable pub take_step : Shared T S → Owner T → T → Shared T S × Ended T
  take_step s idle ca =
      let tail : ℕ = s.ring.tail_idx - 1 in
      if s.ring.tail_idx == 0
      then (s, some (Op.take ca, some (false, ca)))
      else (record s { ring = record s.ring { tail_idx = tail }; owner = looking tail ca }, none)
  take_step s (looking t ca') ca = (s, none)
  take_step s (swapping t ca') ca = (s, none)
  take_step s (wanting t ca') ca = (s, none)

  -- `if ( head_idx_.load() <= tail)`
  unfoldable pub look_step : Shared T S → Owner T → Shared T S × Ended T
  look_step s idle = (s, none)
  look_step s (looking t ca) =
      (record s { owner = if leb s.ring.head_idx t then swapping t ca else wanting t ca }, none)
  look_step s (swapping t ca) = (s, none)
  look_step s (wanting t ca) = (s, none)

  -- `ca.swap( array_[tail & mask_])`
  unfoldable pub take_out : Shared T S → ℕ → T → Shared T S × Ended T
  take_out s t ca = (
    record s { ring = record s.ring { array = set s.ring.array (slot s.ring t) ca }; owner = idle },
    some (Op.take ca, some (true, get_or s.ring.array (slot s.ring t) vacant)),
  )

  unfoldable pub swap_step : Shared T S → Owner T → Shared T S × Ended T
  unfolding take_out
  swap_step s idle = (s, none)
  swap_step s (looking t ca) = (s, none)
  swap_step s (swapping t ca) = take_out s t ca
  swap_step s (wanting t ca) = (s, none)

  -- What `try_take` does under the lock, when no thief has it.
  unfoldable pub relock_step : Shared T S → Owner T → Thief T → Shared T S × Ended T
  unfolding take_out
  relock_step s (wanting t ca) away = if leb s.ring.head_idx t then take_out s t ca else (
    record s { ring = record s.ring { tail_idx = u32 (t + 1) }; owner = idle },
    some (Op.take ca, some (false, ca)),
  )
  relock_step s (wanting t ca) (raised h ca') = (s, none)
  relock_step s (wanting t ca) (grabbing h ca') = (s, none)
  relock_step s idle thief = (s, none)
  relock_step s (looking t ca) thief = (s, none)
  relock_step s (swapping t ca) thief = (s, none)

  -- `try_steal` up to `head_idx_.exchange( head + 1)`; without the lock it returns false.
  unfoldable pub steal_step : Shared T S → Thief T → T → Shared T S × Ended T
  steal_step s away ca =
      let head : ℕ = s.ring.head_idx in
      (
        record s { ring = record s.ring { head_idx = u32 (head + 1) }; thief = raised head ca },
        none,
      )
  steal_step s (raised h ca') ca = (s, some (Op.steal false ca, some (false, ca)))
  steal_step s (grabbing h ca') ca = (s, some (Op.steal false ca, some (false, ca)))

  -- `if ( head < tail_idx_.load() )`
  unfoldable pub check_step : Shared T S → Thief T → Shared T S × Ended T
  check_step s away = (s, none)
  check_step s (raised h ca) =
      if ltb h s.ring.tail_idx then (record s { thief = grabbing h ca }, none) else (
        record s { ring = record s.ring { head_idx = h }; thief = away },
        some (Op.steal false ca, some (false, ca)),
      )
  check_step s (grabbing h ca) = (s, none)

  -- `ca.swap( array_[head & mask_])`
  unfoldable pub grab_step : Shared T S → Thief T → Shared T S × Ended T
  grab_step s away = (s, none)
  grab_step s (raised h ca) = (s, none)
  grab_step s (grabbing h ca) = (
    record s { ring = record s.ring { array = set s.ring.array (slot s.ring h) ca }; thief = away },
    some (Op.steal true ca, some (true, get_or s.ring.array (slot s.ring h) vacant)),
  )

  unfoldable pub step : Shared T S → Event T → Shared T S × Ended T
  unfolding put_step take_step look_step swap_step relock_step steal_step check_step grab_step
  step s (puts ca) = put_step s s.owner ca
  step s (takes ca) = take_step s s.owner ca
  step s looks = look_step s s.owner
  step s swaps = swap_step s s.owner
  step s relocks = relock_step s s.owner s.thief
  step s (steals ca) = steal_step s s.thief ca
  step s checks = check_step s s.thief
  step s grabs = grab_step s s.thief

  -- The calls that end, in the order in which they do.
  unfoldable pub history : Shared T S → List (Event T) → List (Op T × Reply T)
  unfolding step emit
  history s [] = []
  history s (e ∷ es) = let (s', ended) = step s e in emit ended (history s' es)

  unfoldable pub final : Shared T S → List (Event T) → Shared T S
  unfolding step
  final s [] = s
  final s (e ∷ es) = final (step s e).0 es

abbrev pub at_rest : {T S : Type 0} → Wsq T S → Shared T S
at_rest w = record { ring = w; owner = idle; thief = away }

abbrev pub ops_of : {T : Type 0} → List (Op T × Reply T) → List (Op T)
ops_of [] = []
ops_of ((op, reply) ∷ log) = op ∷ ops_of log

abbrev pub replies_of : {T : Type 0} → List (Op T × Reply T) → List (Reply T)
replies_of [] = []
replies_of ((op, reply) ∷ log) = reply ∷ replies_of log
