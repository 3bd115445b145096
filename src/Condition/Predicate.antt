-- ===== src/Condition/Predicate.antt =====
-- The waits of include/boost/task/spin/condition.hpp for a predicate, over the waits without one. What others do is a
-- list: an element is the world when one wait has returned, and for a wait with a time limit whether it
-- was notified. While the list lasts the caller sleeps no longer than it says; at its end it sleeps.
pub mod Answers
use boost_task.Prelude.{Bool, true, false, not, Option, none, some, List, [], ◌∷◌, if◌then◌else◌}

-- How a wait ends: it has not, it throws `lock_error`, or it returns.
pub data Outcome (W A : Type 0) : Type 0 where
  sleeps : Outcome W A
  lock_error : Outcome W A
  returns : A → W → Outcome W A

module _ {W : Type 0} (pred : W → Bool) where
  -- `while ( ! pred() ) wait( lt)`
  unfoldable pub wait_for : W → List W → Outcome W Bool
  wait_for w [] = if not (pred w) then sleeps else returns true w
  wait_for w (w' ∷ later) =
      let rest = wait_for w' later in if not (pred w) then rest else returns true w

  -- `while ( ! pred() ) if ( ! timed_wait( lt, abs_time) ) return pred(); return true`
  unfoldable pub timed_wait_for : W → List (Bool × W) → Outcome W Bool
  timed_wait_for w [] = if not (pred w) then sleeps else returns true w
  timed_wait_for w ((notified, w') ∷ later) =
      let rest = timed_wait_for w' later in
      if not (pred w) then if not notified then returns (pred w') w' else rest else returns true w

  -- The overloads that take a `unique_lock` and test that it owns its mutex.
  unfoldable pub wait_owned : Bool → W → List W → Outcome W Bool
  unfolding wait_for
  wait_owned owns w later = if not owns then lock_error else wait_for w later

  abbrev pub worlds : List (Bool × W) → List W
  worlds [] = []
  worlds ((notified, w) ∷ later) = w ∷ worlds later

  unfoldable pub timed_wait_owned : Bool → Bool → W → List (Bool × W) → Outcome W Bool
  unfolding wait_owned timed_wait_for
  timed_wait_owned infinite owns w later =
      if infinite
      then wait_owned owns w (worlds later)
      else if not owns
      then lock_error
      else timed_wait_for w later
