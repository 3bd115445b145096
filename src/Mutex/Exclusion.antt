-- ===== src/Mutex/Exclusion.antt =====
-- Threads on the spin mutex, of which only one that is inside unlocks.
use boost_task.Prelude.{
  ℕ, ◌≡◌, ◌≢◌, ◌⊎◌, inl, inr, refl, ap, sym, ◌∙◌, Bool, true, false, true≢false, List, [], ◌∷◌,
  ◌==◌, ◌||◌, if◌then◌else◌, if-cases, arith,
}
use mathlib.Core.Path.{subst, fun_ext}
use boost_task.Mutex.{
  try_lock, unlock, construct, Threads, Event, attempt, release, initial, put_inside, step, run,
}

-- The mutex is free and nobody inside, or it is locked by one thread, the only one inside.
abbrev pub IsExclusive : Threads → Type 0
IsExclusive s =
    ((s.locked ≡ false) × ((j : ℕ) → s.inside j ≡ false))
    ⊎ ((s.locked ≡ true) × (i : ℕ) × (s.inside i ≡ true) × ((j : ℕ) → s.inside j ≡ true → j ≡ i))

pub put_inside-here : (inside : ℕ → Bool) (i : ℕ) (b : Bool) → put_inside inside i b i ≡ b
unfolding put_inside
put_inside-here inside i b =
    let same : (i == i) ≡ true = ground arith in ap (λ (c : Bool). if c then b else inside i) same

put_inside-only :
    (inside : ℕ → Bool) (i j : ℕ) (b : Bool)
    → (j ≢ i → inside j ≡ false)
    → put_inside inside i b j ≡ true
    → j ≡ i
unfolding put_inside
put_inside-only inside i j b outside =
    if-cases (λ x. x ≡ true → j ≡ i) (i == j) (λ c t. ground (arith, c))
      (λ c t. absurd (true≢false (sym t ∙ outside (ground (arith, c)))))

put_inside-none :
    (inside : ℕ → Bool) (i j : ℕ) → (j ≢ i → inside j ≡ false) → put_inside inside i false j ≡ false
unfolding put_inside
put_inside-none inside i j outside =
    if-cases (λ x. x ≡ false) (i == j) (λ c. refl) (λ c. outside (ground (arith, c)))

put_inside-same :
    (inside : ℕ → Bool) (i : ℕ) (b : Bool) → b ≡ inside i → put_inside inside i b ≡ inside
unfolding put_inside
put_inside-same inside i b e = fun_ext λ j.
    if-cases (λ x. x ≡ inside j) (i == j)
      (λ c. e ∙ ap inside (let same : i ≡ j = ground (arith, c) in same)) (λ c. refl)

not_true : (b : Bool) → b ≢ true → b ≡ false
not_true true ne = absurd (ne refl)
not_true false ne = refl

attempt-IsExclusive : (s : Threads) (i : ℕ) → IsExclusive s → IsExclusive (step s (attempt i))
unfolding step try_lock
attempt-IsExclusive s i (inl (free, outside)) =
    let E : Bool → Type 0 = λ (b : Bool).
      let r : Bool × Bool = try_lock b in
      IsExclusive (record { locked = r.1; inside = put_inside s.inside i (r.0 || s.inside i) }) in
    subst E (sym free) (
      inr (
        refl,
        i,
        put_inside-here s.inside i true,
        λ j t. put_inside-only s.inside i j true (λ ne. outside j) t,
      ))
attempt-IsExclusive s i (inr (locked, owner, held, only)) =
    let E : Bool → Type 0 = λ (b : Bool).
      let r : Bool × Bool = try_lock b in
      IsExclusive (record { locked = r.1; inside = put_inside s.inside i (r.0 || s.inside i) }) in
    subst E (sym locked) (
      subst (λ f. IsExclusive (record { locked = true; inside = f })) (sym unchanged)
        (inr (refl, owner, held, only)))
  where
    unchanged : put_inside s.inside i (s.inside i) ≡ s.inside
    unchanged = put_inside-same s.inside i (s.inside i) refl

release-IsExclusive :
    (s : Threads) (i : ℕ)
    → IsExclusive s
    → s.inside i ≡ true
    → IsExclusive (record { locked = unlock s.locked; inside = put_inside s.inside i false })
unfolding unlock
release-IsExclusive s i (inl (free, outside)) t = absurd (true≢false (sym t ∙ outside i))
release-IsExclusive s i (inr (locked, owner, held, only)) t = inl (
  refl,
  λ j.
      put_inside-none s.inside i j
        (λ ne. not_true (s.inside j) (λ u. ne (only j u ∙ sym (only i t)))),
)

-- Each release is by a thread that is inside at that point.
unfoldable pub ByHolder : Threads → List Event → Type 0
ByHolder s [] = Unit {0}
ByHolder s (attempt i ∷ es) = ByHolder (step s (attempt i)) es
ByHolder s (release i ∷ es) = (s.inside i ≡ true) × ByHolder (step s (release i)) es

run-IsExclusive :
    (s : Threads) (es : List Event) → ByHolder s es → IsExclusive s → IsExclusive (run s es)
unfolding run ByHolder
run-IsExclusive s [] by ok = ok
run-IsExclusive s (attempt i ∷ es) by ok =
    run-IsExclusive (step s (attempt i)) es by (attempt-IsExclusive s i ok)
run-IsExclusive s (release i ∷ es) (here, by) ok =
    run-IsExclusive (step s (release i)) es by (unfold step in release-IsExclusive s i ok here)

-- Whatever exchanges of any threads and unlocks by threads that are inside are made of a new spin mutex, in
-- whatever order: either it is free and no thread is inside, so that the next exchange succeeds; or it
-- is locked, and exactly one thread is inside.
pub mutual_exclusion :
    (es : List Event)
    → ByHolder initial es
    → let s : Threads = run initial es in
      ((s.locked ≡ false) × ((j : ℕ) → s.inside j ≡ false))
      ⊎ ((s.locked ≡ true) × (i : ℕ) × (s.inside i ≡ true) × ((j : ℕ) → s.inside j ≡ true → j ≡ i))
unfolding initial construct
mutual_exclusion es by = run-IsExclusive initial es by (inl (refl, λ j. refl))
