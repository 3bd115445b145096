-- ===== src/Events/Overshoot.antt =====
-- Calls of `set` on a count-down event, one after another and together.
use boost_task.Prelude.{
  ℕ, zero, suc, ◌+◌, ◌-◌, ◌^◌, ◌<◌, ◌≡◌, refl, ap, ◌∙◌, Bool, true, false, List, [], ◌∷◌, ◌++◌,
  ◌==◌, if◌then◌else◌, arith,
}
use boost_task.Events.CountDown.{
  Counter, construct, is_set, test, load, decrement, exchange, Event, tests, loads, exchanges, step,
  run,
}

-- No thread has loaded a count, and some have tested it.
abbrev at : ℕ → ℕ → ℕ → Counter
at initial current tested = record {
  initial = initial;
  current = current;
  tested = tested;
  expecting = [];
}

abbrev pub all_test : ℕ → List Event
all_test zero = []
all_test (suc k) = tests ∷ all_test k

-- Threads past their tests load and exchange, one after another.
abbrev pub all_lower : ℕ → List Event
all_lower zero = []
all_lower (suc k) = loads ∷ exchanges 0 ∷ all_lower k

-- Whole calls, one after another.
abbrev pub all_set : ℕ → List Event
all_set zero = []
all_set (suc k) = tests ∷ loads ∷ exchanges 0 ∷ all_set k

run-append : (c : Counter) (es fs : List Event) → run c (es ++ fs) ≡ run (run c es) fs
unfolding run
run-append c [] fs = refl
run-append c (e ∷ es) fs = run-append (step c e) es fs

decrement-suc : (m : ℕ) → m + 1 < 2 ^ 64 → decrement (suc m) ≡ m
unfolding decrement
decrement-suc m h = omega (arith, h)

test-above : (i m t : ℕ) → test (at i (suc m) t) ≡ at i (suc m) (t + 1)
unfolding test
test-above i m t =
    let above : (0 == suc m) ≡ false = ground arith in
    ap (λ (b : Bool). if b then at i (suc m) t else at i (suc m) (t + 1)) above

lower_lem : (i m t : ℕ) → step (step (at i m (suc t)) loads) (exchanges 0) ≡ at i (decrement m) t
unfolding step load exchange
lower_lem i m t =
    let some_tested : (suc t == 0) ≡ false = ground arith in
    let same : (m == m) ≡ true = ground arith in
    let one_less : suc t - 1 ≡ t = omega arith in
    ap
      (λ (b : Bool).
        exchange (if b then at i m (suc t) else record (at i m (suc t - 1)) { expecting = m ∷ [] })
          0)
      some_tested
    ∙ ap (λ (b : Bool). if b then at i (decrement m) (suc t - 1) else at i m (suc t - 1)) same
    ∙ ap (at i (decrement m)) one_less

all_test_lem : (k i m t : ℕ) → run (at i (suc m) t) (all_test k) ≡ at i (suc m) (t + k)
unfolding run step
all_test_lem zero i m t = let same : t ≡ t + 0 = omega arith in ap (at i (suc m)) same
all_test_lem (suc k) i m t =
    let same : t + 1 + k ≡ t + suc k = omega arith in
    ap (λ (c : Counter). run c (all_test k)) (test-above i m t)
    ∙ all_test_lem k i m (t + 1)
    ∙ ap (at i (suc m)) same

-- One thread more than the count.
all_lower_lem :
    (n i : ℕ) → n < 2 ^ 64 → run (at i n (suc n)) (all_lower (suc n)) ≡ at i (2 ^ 64 - 1) 0
unfolding run decrement
all_lower_lem zero i h = lower_lem i 0 0
all_lower_lem (suc n) i h =
    ap (λ (c : Counter). run c (all_lower (suc n)))
      (lower_lem i (suc n) (suc n)
        ∙ ap (λ (m : ℕ). at i m (suc n)) (decrement-suc n (omega (arith, h))))
    ∙ all_lower_lem n i (omega (arith, h))

set_lem : (i m : ℕ) → m + 1 < 2 ^ 64 → run (at i (suc m) 0) (all_set 1) ≡ at i m 0
unfolding run step
set_lem i m h =
    ap (λ (c : Counter). exchange (load c) 0) (test-above i m 0)
    ∙ lower_lem i (suc m) 0
    ∙ ap (λ (n : ℕ). at i n 0) (decrement-suc m h)

all_set_lem : (k i n : ℕ) → n < 2 ^ 64 → run (at i n 0) (all_set k) ≡ at i (n - k) 0
unfolding run step
all_set_lem zero i n h = let same : n ≡ n - 0 = omega arith in ap (λ (m : ℕ). at i m 0) same
all_set_lem (suc k) i zero h =
    let same : 0 - k ≡ 0 - suc k = omega arith in
    all_set_lem k i 0 h ∙ ap (λ (m : ℕ). at i m 0) same
all_set_lem (suc k) i (suc m) h =
    let same : m - k ≡ suc m - suc k = omega arith in
    ap (λ (c : Counter). run c (all_set k)) (set_lem i m (omega (arith, h)))
    ∙ all_set_lem k i m (omega (arith, h))
    ∙ ap (λ (n : ℕ). at i n 0) same

-- On a new count-down event for m + 1, below 2 ^ 64: as many calls of set as are made, one after another,
-- lower the count by one each and stop at 0; but m + 2 calls that have all made their first test before the
-- others load and exchange leave the count 2 ^ 64 - 1, and the event not set.
pub one_set_too_many :
    (m k : ℕ)
    → m + 1 < 2 ^ 64
    → let c : Counter =
        run (construct (suc m)) (all_test (suc (suc m)) ++ all_lower (suc (suc m))) in
      ((run (construct (suc m)) (all_set k)).current ≡ suc m - k)
      × (c.current ≡ 2 ^ 64 - 1)
      × (is_set c ≡ false)
unfolding construct is_set
one_set_too_many m k h =
    let same : 0 + suc (suc m) ≡ suc (suc m) = omega arith in
    let passed =
      run-append (construct (suc m)) (all_test (suc (suc m))) (all_lower (suc (suc m)))
      ∙ ap (λ (c : Counter). run c (all_lower (suc (suc m))))
          (all_test_lem (suc (suc m)) (suc m) m 0 ∙ ap (at (suc m) (suc m)) same)
      ∙ all_lower_lem (suc m) (suc m) (omega (arith, h)) in
    (
      ap (λ (c : Counter). c.current) (all_set_lem k (suc m) (suc m) (omega (arith, h))),
      ap (λ (c : Counter). c.current) passed,
      ap is_set passed,
    )
