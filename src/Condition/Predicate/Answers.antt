-- ===== src/Condition/Predicate/Answers.antt =====
-- What a wait for a predicate says when it returns, and when it does not.
use boost_task.Prelude.{◌≡◌, ◌⊎◌, Bool, true, false, List, [], ◌∷◌}
use boost_task.Condition.Predicate.{Outcome, sleeps, returns}

module _ {W : Type 0} (pred : W → Bool) where
  -- How a wait of a caller that owns its lock ends: at once in a world where the predicate holds; in the world
  -- where a wait with a limit ran out of time, with the predicate's answer there; or it sleeps on. Every
  -- world it was woken in before that did not satisfy the predicate.
  pub data Waits (infinite : Bool) : W → List (Bool × W) → Outcome W Bool → Type 0 where
    met :
        (w : W) (later : List (Bool × W)) → pred w ≡ true → Waits infinite w later (returns true w)
    asleep : (w : W) → pred w ≡ false → Waits infinite w [] sleeps
    late :
        (w w' : W) (notified : Bool) (later : List (Bool × W))
        → pred w ≡ false
        → infinite ≡ false
        → notified ≡ false
        → Waits infinite w ((notified, w') ∷ later) (returns (pred w') w')
    again :
        (w w' : W) (notified : Bool) (later : List (Bool × W)) (o : Outcome W Bool)
        → pred w ≡ false
        → (infinite ≡ true) ⊎ (notified ≡ true)
        → Waits infinite w' later o
        → Waits infinite w ((notified, w') ∷ later) o
