-- ===== src/Wsq/Deque.antt =====
-- What a work-stealing queue promises, without a ring: a list with the owner at its back and the thieves
-- at its front. The answers are those of src/detail/wsq.cpp: whether there was an element, and what the
-- caller's variable holds afterwards.
use boost_task.Prelude.{◌≡◌, refl, Bool, true, false, Option, none, some, List, [], ◌∷◌, ◌++◌}

-- One call, with the caller's value; `steal` has the answer of the try-lock.
pub data Op (T : Type 0) : Type 0 where
  put : T → Op T
  take : T → Op T
  steal : Bool → T → Op T

abbrev pub Reply : Type 0 → Type 0
Reply T = Option (Bool × T)

module _ {T : Type 0} where
  split_last : T → List T → List T × T
  split_last x [] = ([], x)
  split_last x (y ∷ ys) = let (front, last) = split_last y ys in (x ∷ front, last)

  unfoldable pub take_back : List T → T → Bool × T × List T
  unfolding split_last
  take_back [] ca = (false, ca, [])
  take_back (x ∷ xs) ca = let (front, last) = split_last x xs in (true, last, front)

  unfoldable pub take_front : Bool → List T → T → Bool × T × List T
  take_front false xs ca = (false, ca, xs)
  take_front true [] ca = (false, ca, [])
  take_front true (x ∷ xs) ca = (true, x, xs)

  unfoldable pub run : List T → List (Op T) → List (Reply T)
  run xs [] = []
  run xs (put x ∷ ops) = none ∷ run (xs ++ (x ∷ [])) ops
  run xs (take ca ∷ ops) =
      let (taken, out, xs') = take_back xs ca in some (taken, out) ∷ run xs' ops
  run xs (steal lock ca ∷ ops) =
      let (taken, out, xs') = take_front lock xs ca in some (taken, out) ∷ run xs' ops

  -- What some calls leave.
  unfoldable pub after : List T → List (Op T) → List T
  after xs [] = xs
  after xs (put x ∷ ops) = after (xs ++ (x ∷ [])) ops
  after xs (take ca ∷ ops) = after (take_back xs ca).2 ops
  after xs (steal lock ca ∷ ops) = after (take_front lock xs ca).2 ops

  split_last-append : (x y : T) (xs : List T) → split_last x (xs ++ (y ∷ [])) ≡ (x ∷ xs, y)
  unfolding split_last
  split_last-append x y [] = refl
  split_last-append x y (z ∷ zs) = rw (split_last-append z y zs)

  pub take_back-append : (xs : List T) (y ca : T) → take_back (xs ++ (y ∷ [])) ca ≡ (true, y, xs)
  unfolding take_back
  take_back-append [] y ca = refl
  take_back-append (x ∷ xs) y ca = rw (split_last-append x y xs)
