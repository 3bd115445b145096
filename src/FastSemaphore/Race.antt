-- ===== src/FastSemaphore/Race.antt =====
-- src/fast_semaphore.cpp, with any number of threads on one semaphore: each access to the counter, to the
-- flag and to the kernel's semaphore is one step.
mod Inv
mod Moves
mod Posts
mod Choice
mod Kernel
pub mod Safety
use boost_task.Prelude.{
  ℕ, zero, suc, ◌+◌, ◌-◌, Bool, true, false, not, ◌&&◌, Option, none, some, List, [], ◌∷◌, ◌==◌,
  if◌then◌else◌,
}
use boost_task.Prelude.Int.{
  ℤ, pos, negsuc, pos_part, ltb_ℤ, eq_ℤ, min_ℤ, abs_ℤ, wrap_int, ◌+ℤ◌, ◌-ℤ◌,
}
use boost_task.Prelude.Picks.{pick}
use boost_task.Semaphore
use boost_task.Semaphore.{Sysv, Call, returns, asleep, invalid_argument, system_error}
use boost_task.FastSemaphore.{Fast}

-- `deciding` callers of `wait` have lowered the counter from below 0 and not read the flag yet, `inside` are in
-- the kernel; `posting` is what callers of `post` are about to hand to the kernel, `loaded` what callers
-- of `deactivate` are about to add. The rest is history: the calls that returned with one, those of them
-- that found 0 and those that found the flag down; what was added; and whether a `deactivate` has added.
pub record Shared (os : Sysv) : Type 0 where
  pub fsem : Fast os
  pub deciding : ℕ
  pub inside : ℕ
  pub posting : List ℤ
  pub loaded : List ℤ
  pub returned : ℕ
  pub at_zero : ℕ
  pub early : ℕ
  pub posted : ℕ
  pub stopped : Bool

-- `exchange seen` is the compare-exchange of a `try_wait` that has loaded `seen`. A `post` of a negative number
-- throws before it touches the counter, so `raise` has a natural number.
pub data Event : Type 0 where
  lower : Event
  decide : Event
  resume : Event
  exchange : ℤ → Event
  raise : ℕ → Event
  hand : ℕ → Event
  switch_off : Event
  load : Event
  raise_loaded : ℕ → Event

abbrev is_negative : ℤ → Bool
is_negative (pos n) = false
is_negative (negsuc n) = true

abbrev zeros : ℤ → ℕ
zeros (pos zero) = 1
zeros (pos (suc n)) = 0
zeros (negsuc n) = 0

-- What `fetch_sub( 1)` and `fetch_add( count)` leave, and what `post` hands to the kernel.
unfoldable pub lowered : ℤ → ℤ
lowered old = wrap_int (old -ℤ pos 1)

unfoldable pub raised : ℤ → ℤ → ℤ
raised old count = wrap_int (old +ℤ count)

unfoldable pub share : ℤ → ℤ → ℤ
share old count = min_ℤ count (wrap_int (pos 0 -ℤ old))

module _ (os : Sysv) where
  abbrev pub new : Fast os → Shared os
  new f = record {
    fsem = f;
    deciding = 0;
    inside = 0;
    posting = [];
    loaded = [];
    returned = 0;
    at_zero = 0;
    early = 0;
    posted = 0;
    stopped = false;
  }

  -- `if ( 0 <= sem_count_.fetch_sub( 1) ) return`, with the old count.
  unfoldable pub lower_count : Shared os → ℤ → Shared os
  unfolding lowered
  lower_count s old =
      let s' : Shared os = record s { fsem = record s.fsem { sem_count = lowered old } } in
      if not (is_negative old)
      then record s' { returned = s.returned + 1; at_zero = s.at_zero + zeros old }
      else record s' { deciding = s.deciding + 1 }

  -- `if ( ! sem_active_.load() ) return`, of a caller that is deciding.
  unfoldable pub decide_sleep : Shared os → ℕ → Shared os
  decide_sleep s zero = s
  decide_sleep s (suc rest) =
      if not s.fsem.sem_active
      then record s { deciding = rest; returned = s.returned + 1; early = s.early + 1 }
      else record s { deciding = rest; inside = s.inside + 1 }

  unfoldable pub resumed : Shared os → ℕ → Call os.Kern → Shared os
  resumed s rest (returns k) = record s {
    fsem = record s.fsem { sem = k };
    inside = rest;
    returned = s.returned + 1;
  }
  resumed s rest (asleep k) = s
  resumed s rest (invalid_argument k) = s
  resumed s rest (system_error k) = record s { inside = rest }

  -- The kernel's wait, of a caller inside.
  unfoldable pub resume_inside : Shared os → ℕ → Shared os
  unfolding resumed
  resume_inside s zero = s
  resume_inside s (suc rest) = resumed s rest (Semaphore.wait os s.fsem.sem)

  -- `compare_exchange_strong( sem_count, sem_count - 1)`, of a caller whose loop goes on for what it loaded.
  unfoldable pub exchange_seen : Shared os → ℤ → Shared os
  exchange_seen s seen =
      if ltb_ℤ (pos 0) seen && eq_ℤ s.fsem.sem_count seen
      then record s { fsem = record s.fsem { sem_count = lowered seen }; returned = s.returned + 1 }
      else s

  -- `fetch_add`, with the old count; where it is below 0, something is handed to the kernel.
  unfoldable pub raise_count : Shared os → ℤ → ℤ → Shared os
  unfolding raised share
  raise_count s count old =
      let s' : Shared os = record s {
        fsem = record s.fsem { sem_count = raised old count };
        posted = s.posted + pos_part count;
      } in
      if is_negative old then record s' { posting = share old count ∷ s.posting } else s'

  unfoldable pub handed : Shared os → List ℤ → Call os.Kern → Shared os
  handed s rest (returns k) = record s { fsem = record s.fsem { sem = k }; posting = rest }
  handed s rest (asleep k) = s
  handed s rest (invalid_argument k) = record s { posting = rest }
  handed s rest (system_error k) = record s { posting = rest }

  unfoldable pub hand_picked : Shared os → Option (ℤ × List ℤ) → Shared os
  unfolding handed
  hand_picked s none = s
  hand_picked s (some (x, rest)) = handed s rest (Semaphore.post os s.fsem.sem x)

  -- `std::abs( sem_count_.load() )`, of a caller that has switched the flag off.
  unfoldable pub load_count : Shared os → Shared os
  load_count s =
      if s.fsem.sem_active then s else record s { loaded = abs_ℤ s.fsem.sem_count ∷ s.loaded }

  unfoldable pub raise_picked : Shared os → Option (ℤ × List ℤ) → Shared os
  unfolding raise_count
  raise_picked s none = s
  raise_picked s (some (x, rest)) =
      raise_count (record s { loaded = rest; stopped = true }) x s.fsem.sem_count

  unfoldable pub step : Shared os → Event → Shared os
  unfolding lower_count decide_sleep resume_inside exchange_seen raise_count hand_picked load_count
      raise_picked
  step s lower = lower_count s s.fsem.sem_count
  step s decide = decide_sleep s s.deciding
  step s resume = resume_inside s s.inside
  step s (exchange seen) = exchange_seen s seen
  step s (raise n) = raise_count s (pos n) s.fsem.sem_count
  step s (hand i) = hand_picked s (pick s.posting i)
  step s switch_off = record s { fsem = record s.fsem { sem_active = false } }
  step s load = load_count s
  step s (raise_loaded i) = raise_picked s (pick s.loaded i)

  unfoldable pub run : Shared os → List Event → Shared os
  unfolding step
  run s [] = s
  run s (e ∷ es) = run (step s e) es

-- What is about to be handed to the kernel, in all.
abbrev pub total : List ℤ → ℕ
total [] = 0
total (x ∷ xs) = pos_part x + total xs

-- How far from 0 the counter can be after some events, where it was at most `b` from it.
abbrev pub reach : ℕ → List Event → ℕ
reach b [] = b
reach b (lower ∷ es) = reach (b + 1) es
reach b (raise n ∷ es) = reach (b + n) es
reach b (raise_loaded i ∷ es) = reach (b + b) es
reach b (e ∷ es) = reach b es
