-- ===== src/FastSemaphore/Race/Choice.antt =====
-- A caller is chosen by its place in a list: what the choice takes out and leaves.
use boost_task.Prelude.{ℕ, zero, suc, ◌+◌, ◌≡◌, ◌≢◌, refl, Option, none, some, List, [], ◌∷◌, arith}
use boost_task.Prelude.Int.{ℤ, pos_part}
use boost_task.Prelude.Picks.{pick}
use boost_task.FastSemaphore.Race.{total}
use boost_task.FastSemaphore.Race.Inv.{Covering}

-- What a pick takes out and leaves, as sums.
unfoldable pub Parted : List ℤ → Option (ℤ × List ℤ) → Type 0
Parted xs none = Unit {0}
Parted xs (some (y, ys)) = total xs ≡ pos_part y + total ys

Parted-more :
    (x : ℤ) (xs : List ℤ) (o : Option (ℤ × List ℤ))
    → Parted xs o
    → Parted (x ∷ xs) (elim o [ none ↦ some (x, xs) | some (y, ys) ↦ some (y, x ∷ ys) ])
unfolding Parted
Parted-more x xs none p = refl
Parted-more x xs (some (y, ys)) p = omega (arith, p)

pub pick-Parted : (xs : List ℤ) (i : ℕ) → Parted xs (pick xs i)
unfolding Parted
pick-Parted [] i = tt
pick-Parted (x ∷ xs) zero = refl
pick-Parted (x ∷ xs) (suc i) = Parted-more x xs (pick xs i) (pick-Parted xs i)

-- A pick from numbers that cover the threads inside.
unfoldable pub Chosen : ℕ → ℕ → ℕ → List ℤ → Option (ℤ × List ℤ) → Type 0
unfolding Covering
Chosen b inside held xs none = Unit {0}
Chosen b inside held xs (some (y, ys)) =
    (xs ≢ []) × (Covering b inside held xs → Covering b inside held (y ∷ ys))

∷-≢[] : (x : ℤ) (xs : List ℤ) → x ∷ xs ≢ []
∷-≢[] x xs e = cc e

Chosen-more :
    (b inside held : ℕ) (x : ℤ) (xs : List ℤ) (o : Option (ℤ × List ℤ))
    → Chosen b inside held xs o
    → Chosen b inside held
        (x ∷ xs)
        (elim o [ none ↦ some (x, xs) | some (y, ys) ↦ some (y, x ∷ ys) ])
unfolding Chosen Covering
Chosen-more b inside held x xs none p = (∷-≢[] x xs, λ c. c)
Chosen-more b inside held x xs (some (y, ys)) p = (
  ∷-≢[] x xs,
  λ c. let (first, others) = c in let (one, rest) = p.1 others in (one, (first, rest)),
)

pub pick-Chosen : (b inside held : ℕ) (xs : List ℤ) (i : ℕ) → Chosen b inside held xs (pick xs i)
unfolding Chosen
pick-Chosen b inside held [] i = tt
pick-Chosen b inside held (x ∷ xs) zero = (∷-≢[] x xs, λ c. c)
pick-Chosen b inside held (x ∷ xs) (suc i) =
    Chosen-more b inside held x xs (pick xs i) (pick-Chosen b inside held xs i)
