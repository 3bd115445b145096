-- ===== src/UnboundedPrioQueue/Greatest.antt =====
-- A priority queue of numbers whose greatest attribute comes first, to show that what PriorityQueue says of the
-- standard one can hold; 0 is the empty callable.
use boost_task.Prelude.{
  ℕ, ◌≡◌, refl, Bool, true, false, true≢false, List, [], ◌∷◌, ltb, ◌==◌, if◌then◌else◌, if-cases,
  arith,
}
use mathlib.Core.List.Permᴰ
use mathlib.Core.List.{Permᴰ}
use boost_task.UnboundedPrioQueue.{Value, NoneAbove, PriorityQueue}

abbrev pub V : Type 0
V = Value ℕ ℕ

abbrev pub extract : V → List V → V × List V
extract x [] = (x, [])
extract x (y ∷ ys) =
    let (best, rest) = extract y ys in
    if ltb x.attr best.attr then (best, x ∷ rest) else (x, best ∷ rest)

extract-perm :
    (x : V) (ys : List V) → let (best, rest) = extract x ys in Permᴰ (x ∷ ys) (best ∷ rest)
extract-perm x [] = Permᴰ.refl (x ∷ [])
extract-perm x (y ∷ ys) =
    let (best, rest) = extract y ys in
    let inner : Permᴰ (x ∷ y ∷ ys) (x ∷ best ∷ rest) = Permᴰ.cons refl (extract-perm y ys) in
    if-cases (λ (r : V × List V). Permᴰ (x ∷ y ∷ ys) (r.0 ∷ r.1)) (ltb x.attr best.attr)
      (λ t. Permᴰ.trans inner (Permᴰ.swap refl refl)) (λ f. inner)

NoneAbove-up : (a b : ℕ) (vs : List V) → ltb a b ≡ false → NoneAbove ltb b vs → NoneAbove ltb a vs
unfolding NoneAbove
NoneAbove-up a b [] le none_above = tt
NoneAbove-up a b (v ∷ vs) le (here, there) =
    let up : ltb a v.attr ≡ false = ground (arith, le, here) in (up, NoneAbove-up a b vs le there)

extract-NoneAbove : (x : V) (ys : List V) → NoneAbove ltb (extract x ys).0.attr (x ∷ ys)
unfolding NoneAbove
extract-NoneAbove x [] = let same : ltb x.attr x.attr ≡ false = ground arith in (same, tt)
extract-NoneAbove x (y ∷ ys) =
    let (best, rest) = extract y ys in
    let above = extract-NoneAbove y ys in
    if-cases (λ (r : V × List V). NoneAbove ltb r.0.attr (x ∷ y ∷ ys)) (ltb x.attr best.attr)
      (λ t. let lower : ltb best.attr x.attr ≡ false = ground (arith, t) in (lower, above))
      (λ f.
        let same : ltb x.attr x.attr ≡ false = ground arith in
        (same, NoneAbove-up x.attr best.attr (y ∷ ys) f above))

abbrev pub nil : List V → Bool
nil [] = true
nil (x ∷ xs) = false

abbrev pub top : List V → V
top [] = record { ca = 0; attr = 0 }
top (x ∷ xs) = (extract x xs).0

abbrev pub pop : List V → List V
pop [] = []
pop (x ∷ xs) = (extract x xs).1

pub pop-perm : (q : List V) → nil q ≡ false → Permᴰ q (top q ∷ pop q)
pop-perm [] e = absurd (true≢false e)
pop-perm (x ∷ xs) e = extract-perm x xs

pub top-above : (q : List V) → nil q ≡ false → NoneAbove ltb (top q).attr q
top-above [] e = absurd (true≢false e)
top-above (x ∷ xs) e = extract-NoneAbove x xs

abbrev pub greatest : PriorityQueue ℕ ℕ (List V) ltb
greatest = record {
  new = [];
  is_empty = nil;
  push = λ q v. v ∷ q;
  top = top;
  pop = pop;
  items = λ q. q;
  items-new = refl;
  items-push = λ q v. Permᴰ.refl (v ∷ q);
  items-pop = pop-perm;
  top-NoneAbove = top-above;
}

abbrev pub job : ℕ → ℕ → V
job ca attr = record { ca = ca; attr = attr }

abbrev pub vacant : ℕ → Bool
vacant n = n == 0
