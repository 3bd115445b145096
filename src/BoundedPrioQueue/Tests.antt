-- ===== src/BoundedPrioQueue/Tests.antt =====
-- Runs of the bounded priority queue over a sorted list of numbers.
use boost_task.Prelude.{
  ℕ, suc, ◌+◌, ◌<◌, ◌≤◌, ◌≡◌, refl, ap, true, false, none, some, List, [], ◌∷◌, leb, if◌then◌else◌,
  if-cases, length, replicate, arith,
}
use boost_task.BoundedPrioQueue.{
  Heap, PrioQueue, construct, size, deactivate, try_take, Event, enter, retry, expiry, run,
}
use boost_task.BoundedPrioQueue.Safety.{nobody_stranded, deactivate_releases}

abbrev first_of : List ℕ → ℕ
first_of [] = 0
first_of (x ∷ xs) = x

abbrev rest_of : List ℕ → List ℕ
rest_of [] = []
rest_of (x ∷ xs) = xs

-- The greatest first.
abbrev insert_sorted : List ℕ → ℕ → List ℕ
insert_sorted [] v = v ∷ []
insert_sorted (x ∷ xs) v = let rest = insert_sorted xs v in if leb x v then v ∷ x ∷ xs else x ∷ rest

length-insert_sorted : (xs : List ℕ) (v : ℕ) → length (insert_sorted xs v) ≡ suc (length xs)
length-insert_sorted [] v = refl
length-insert_sorted (x ∷ xs) v =
    if-cases (λ ys. length ys ≡ suc (suc (length xs))) (leb x v) (λ c. refl)
      (λ c. ap suc (length-insert_sorted xs v))

length-rest_of : (xs : List ℕ) (n : ℕ) → length xs ≡ suc n → length (rest_of xs) ≡ n
length-rest_of [] n e = absurd (omega (arith, e))
length-rest_of (x ∷ xs) n e = omega (arith, e)

abbrev sorted : Heap ℕ (List ℕ)
sorted = record {
  new = [];
  size = length;
  push = insert_sorted;
  top = first_of;
  pop = rest_of;
  size-new = refl;
  size-push = length-insert_sorted;
  size-pop = length-rest_of;
}

-- A queue of two places and a low watermark of one.
abbrev small : PrioQueue ℕ (List ℕ)
small = record {
  active = true;
  queue = [];
  hwm = 2;
  lwm = 1;
  has_fsem = true;
  asleep = [];
  ready = [];
  posts = 0;
  rejected = [];
}

-- Two values fit, a third producer waits and a fourth runs out of time.
abbrev crowd : List (Event ℕ)
crowd = enter (false, 3) ∷ enter (false, 8) ∷ enter (false, 5) ∷ enter (true, 7) ∷ expiry 1 ∷ []

abbrev crowded : PrioQueue ℕ (List ℕ)
crowded = record {
  active = true;
  queue = 8 ∷ 3 ∷ [];
  hwm = 2;
  lwm = 1;
  has_fsem = true;
  asleep = (false, 5) ∷ [];
  ready = [];
  posts = 2;
  rejected = 7 ∷ [];
}

run-crowd : run sorted small crowd ≡ crowded
unfolding run
run-crowd = refl

try_take-greatest : (try_take sorted crowded 0).0 ≡ some 8
unfolding try_take
try_take-greatest = refl

construct-inverted : construct sorted 1 2 false ≡ none
unfolding construct
construct-inverted = refl

nobody_stranded_example :
    let q : PrioQueue ℕ (List ℕ) = run sorted small crowd in
    (size sorted q ≤ q.hwm)
    × (1 ≤ length q.asleep
        → (q.active ≡ true)
          × (q.lwm < q.hwm → q.lwm < size sorted q)
          × (q.lwm ≡ q.hwm → q.hwm ≤ size sorted q + length q.ready))
unfolding construct
nobody_stranded_example = nobody_stranded sorted 2 1 true small crowd refl

deactivate_releases_example :
    run sorted
      (deactivate sorted crowded)
      (replicate (length (deactivate sorted crowded).ready) (retry 0))
    ≡ record crowded { active = false; asleep = []; rejected = 7 ∷ 5 ∷ [] }
deactivate_releases_example = deactivate_releases sorted crowded
