-- ===== src/Barrier/Round.antt =====
-- A round of the barrier.
use boost_task.Prelude.{
  ℕ, zero, suc, ◌+◌, ◌≡◌, refl, ap, ap₂, sym, ◌∙◌, Bool, true, false, not, Option, none, some, List,
  [], ◌∷◌, ◌++◌, ◌==◌, if-cases, replicate, length, length-replicate, arith,
}
use mathlib.Core.List.{append-nil, append_assoc}
use boost_task.Barrier.{
  Barrier, decrement, equal, arrive, wait, resume, resume_from, waits, resumes,
}

decrement-suc : (n : ℕ) → decrement (suc n) ≡ n
unfolding decrement
decrement-suc n = ground arith

wait-early :
    (b : Barrier) (n : ℕ)
    → b.current ≡ suc (suc n)
    → (wait b).1 ≡ record b { current = suc n; asleep = b.asleep ++ (b.cycle ∷ []) }
unfolding wait arrive
wait-early b n e =
    let low : decrement b.current ≡ suc n = ap decrement e ∙ decrement-suc (suc n) in
    let asleep : Option Bool × Barrier =
      (none, record b { current = suc n; asleep = b.asleep ++ (b.cycle ∷ []) }) in
    let counted : arrive b (suc n) ≡ asleep =
      if-cases (λ r. r ≡ asleep) (suc n == 0) (λ z. absurd (ground arith)) (λ z. refl) in
    ap (λ (c : ℕ). (arrive b c).1) low ∙ ap (λ (r : Option Bool × Barrier). r.1) counted

waits-early :
    (n m : ℕ) (b : Barrier)
    → b.current ≡ suc (n + m)
    → waits n b ≡ record b { current = suc m; asleep = b.asleep ++ replicate n b.cycle }
unfolding waits
waits-early zero m b e =
    ap₂ (λ (c : ℕ) (xs : List Bool). record b { current = c; asleep = xs }) (omega (arith, e))
      (sym (append-nil b.asleep))
waits-early (suc n) m b e =
    let first = record b { current = suc (n + m); asleep = b.asleep ++ (b.cycle ∷ []) } in
    ap (waits n) (wait-early b (n + m) (omega (arith, e)))
    ∙ waits-early n m first refl
    ∙ ap (λ (xs : List Bool). record b { current = suc m; asleep = xs })
        (append_assoc b.asleep (b.cycle ∷ []) (replicate n b.cycle))

wait-last :
    (b : Barrier)
    → b.current ≡ 1
    → wait b ≡ (
      some true,
      record b {
        cycle = not b.cycle;
        current = b.initial;
        asleep = [];
        ready = b.ready ++ b.asleep;
      },
    )
unfolding wait arrive
wait-last b e =
    let low : decrement b.current ≡ 0 = ap decrement e ∙ decrement-suc 0 in ap (arrive b) low

go_on :
    (b : Barrier) (rest : List Bool)
    → resume_from b (not b.cycle ∷ rest) ≡ record b { ready = rest; returned = b.returned + 1 }
unfolding resume_from equal
go_on b rest =
    let gone = record b { ready = rest; returned = b.returned + 1 } in
    if-cases (λ b'. b' ≡ gone) (equal (not b.cycle) b.cycle) (λ t. absurd (other b.cycle t))
      (λ t. refl)
  where
    other : (c : Bool) → equal (not c) c ≡ true → ⊥
    other true t = let e : true ≡ false = sym t in cc e
    other false t = let e : true ≡ false = sym t in cc e

resumes-other :
    (n : ℕ) (b : Barrier)
    → b.ready ≡ replicate n (not b.cycle)
    → resumes n b ≡ record b { ready = []; returned = b.returned + n }
unfolding resumes resume resume_from equal
resumes-other zero b e =
    ap₂ (λ (xs : List Bool) (k : ℕ). record b { ready = xs; returned = k }) e (omega arith)
resumes-other (suc n) b e =
    let next = record b { ready = replicate n (not b.cycle); returned = b.returned + 1 } in
    ap (resumes n) (ap (resume_from b) e ∙ go_on b (replicate n (not b.cycle)))
    ∙ resumes-other n next refl
    ∙ ap (λ (k : ℕ). record b { ready = []; returned = k }) (omega arith)

-- A barrier for `n + 1` threads that nobody is in.
abbrev pub idle : ℕ → Bool → ℕ → Barrier
idle n cycle returned = record {
  initial = suc n;
  current = suc n;
  cycle = cycle;
  asleep = [];
  ready = [];
  returned = returned;
}

not-not : (c : Bool) → c ≡ not (not c)
not-not true = refl
not-not false = refl

-- A round of n + 1 threads on a barrier for n + 1 that nobody is in: the first n calls sleep, the last
-- one answers true, and when each of the others has had the lock once their calls have answered
-- false, nobody is in the barrier, its count is n + 1 again and its cycle is the other one.
pub round_lem :
    (n : ℕ) (cycle : Bool) (returned : ℕ)
    → let gathered : Barrier = waits n (idle n cycle returned) in
      (length gathered.asleep ≡ n)
      × ((wait gathered).0 ≡ some true)
      × (resumes n (wait gathered).1 ≡ idle n (not cycle) (returned + n))
round_lem n cycle returned =
    let start = idle n cycle returned in
    let full = record start { current = 1; asleep = replicate n cycle } in
    let gathered : waits n start ≡ full = waits-early n 0 start (omega arith) in
    let last = ap wait gathered ∙ wait-last full refl in
    let opened = record start { cycle = not cycle; asleep = []; ready = replicate n cycle } in
    (
      ap (λ (b : Barrier). length b.asleep) gathered ∙ length-replicate n cycle,
      ap (λ (r : Option Bool × Barrier). r.0) last,
      ap (λ (r : Option Bool × Barrier). resumes n r.1) last
          ∙ resumes-other n opened (ap (replicate n) (not-not cycle)),
    )
