-- ===== src/Prelude/Picks.antt =====
-- Taking one element out of a list, as a condition takes a waiter.
use boost_task.Prelude.{ℕ, zero, suc, ◌≡◌, refl, ap, Option, none, some, List, [], ◌∷◌, length}

-- Takes an element out; a position past the end is the last one.
abbrev pub pick : {A : Type 0} → List A → ℕ → Option (A × List A)
pick [] i = none
pick (x ∷ xs) zero = some (x, xs)
pick (x ∷ xs) (suc i) = elim (pick xs i) [ none ↦ some (x, xs) | some (y, ys) ↦ some (y, x ∷ ys) ]

-- A pick takes one element, and fails only on an empty list.
unfoldable pub Picked : {A : Type 0} → List A → Option (A × List A) → Type 0
Picked xs none = length xs ≡ 0
Picked xs (some (y, ys)) = length xs ≡ suc (length ys)

pub pick-Picked : {A : Type 0} (xs : List A) (i : ℕ) → Picked xs (pick xs i)
unfolding Picked
pick-Picked [] i = refl
pick-Picked (x ∷ xs) zero = refl
pick-Picked (x ∷ xs) (suc i) = more (pick xs i) (pick-Picked xs i)
  where
    more :
        (o : Option (_ × List _))
        → Picked xs o
        → Picked (x ∷ xs) (elim o [ none ↦ some (x, xs) | some (y, ys) ↦ some (y, x ∷ ys) ])
    more none p = refl
    more (some (y, ys)) p = ap suc p
