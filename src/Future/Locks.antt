-- ===== src/Future/Locks.antt =====
-- The locks that `wait_for_any` takes, by its arguments.
use boost_task.Prelude.{
  ℕ, zero, suc, ◌+◌, ◌<◌, ◌≡◌, ◌⊎◌, ◌==◌, ◌||◌, if-cases, Bool, inl, inr, refl, ap, sym, ◌∙◌, true,
  false, Option, none, some, List, [], ◌∷◌, Bool-cases, arith,
}
use mathlib.Core.Path.{subst}
use boost_task.Future.Handle.{Handle}
use boost_task.Future.Waiter.{mem, lock_all}

-- The argument at a position.
abbrev pub nth : List Handle → ℕ → Option Handle
nth [] i = none
nth (h ∷ hs) zero = some h
nth (h ∷ hs) (suc i) = nth hs i

-- What is registered of arguments whose first has the index `n`.
unfoldable pub registered : List Handle → ℕ → List (ℕ × ℕ)
registered [] n = []
registered (none ∷ hs) n = registered hs (n + 1)
registered (some a ∷ hs) n = (a, n) ∷ registered hs (n + 1)

-- Two arguments at different positions refer to one state.
abbrev pub SharesState : List Handle → Type 0
SharesState hs = (i j a : ℕ) × (i < j) × (nth hs i ≡ some (some a)) × (nth hs j ≡ some (some a))

abbrev pub AllDistinct : List Handle → Type 0
AllDistinct hs = (i j a : ℕ) → i < j → nth hs i ≡ some (some a) → nth hs j ≡ some (some a) → ⊥

-- What the locks of the arguments come to, with some in hand.
unfoldable pub Locked : List Handle → List ℕ → Bool → Type 0
Locked hs held true = ((j a : ℕ) → nth hs j ≡ some (some a) → mem a held ≡ false) × AllDistinct hs
Locked hs held false =
    ((j a : ℕ) × (nth hs j ≡ some (some a)) × (mem a held ≡ true)) ⊎ SharesState hs

Locked-none :
    (hs : List Handle) (held : List ℕ) (b : Bool) → Locked hs held b → Locked (none ∷ hs) held b
unfolding Locked
Locked-none hs held true (free, distinct) = (free_from, distinct_from)
  where
    free_from : (j a : ℕ) → nth (none ∷ hs) j ≡ some (some a) → mem a held ≡ false
    free_from zero a at = absurd (cc at)
    free_from (suc j) a at = free j a at

    distinct_from : AllDistinct (none ∷ hs)
    distinct_from zero j a lt at at' = absurd (cc at)
    distinct_from (suc i) zero a lt at at' = absurd (omega (arith, lt))
    distinct_from (suc i) (suc j) a lt at at' = distinct i j a (omega (arith, lt)) at at'
Locked-none hs held false (inl (j, a, at, taken)) = inl (suc j, a, at, taken)
Locked-none hs held false (inr (i, j, a, lt, at, at')) =
    inr (suc i, suc j, a, omega (arith, lt), at, at')

or-false : (x y : Bool) → (x || y) ≡ false → (x ≡ false) × (y ≡ false)
or-false false y e = (refl, e)
or-false true y e = absurd (cc e)

Locked-some :
    (b : ℕ) (hs : List Handle) (held : List ℕ) (r : Bool)
    → mem b held ≡ false
    → Locked hs (b ∷ held) r
    → Locked (some b ∷ hs) held r
unfolding Locked
Locked-some b hs held true new (free, distinct) = (free_from, distinct_from)
  where
    free_from : (j a : ℕ) → nth (some b ∷ hs) j ≡ some (some a) → mem a held ≡ false
    free_from zero a at = let same : b ≡ a = cc at in subst (λ x. mem x held ≡ false) same new
    free_from (suc j) a at = (or-false (a == b) (mem a held) (free j a at)).1

    distinct_from : AllDistinct (some b ∷ hs)
    distinct_from zero zero a lt at at' = absurd (omega (arith, lt))
    distinct_from zero (suc j) a lt at at' =
        let same : b ≡ a = cc at in
        let other : (a == b) ≡ false = (or-false (a == b) (mem a held) (free j a at')).0 in
        absurd (ground (arith, same, other))
    distinct_from (suc i) zero a lt at at' = absurd (omega (arith, lt))
    distinct_from (suc i) (suc j) a lt at at' = distinct i j a (omega (arith, lt)) at at'
Locked-some b hs held false new (inl (j, a, at, taken)) = elim (Bool-cases (a == b)) [
  | inl t ↦
      let same : b ≡ a = ground (arith, t) in
      inr (0, suc j, a, omega arith, ap (λ x. some (some x)) same, at)
  | inr f ↦ inl (suc j, a, at, sym (ap (λ (c : Bool). c || mem a held) f) ∙ taken)
]
Locked-some b hs held false new (inr (i, j, a, lt, at, at')) =
    inr (suc i, suc j, a, omega (arith, lt), at, at')

pub lock_all-Locked :
    (hs : List Handle) (n : ℕ) (held : List ℕ) → Locked hs held (lock_all (registered hs n) held)
unfolding lock_all registered Locked
lock_all-Locked [] n held = (λ j a at. absurd (cc at), λ i j a lt at at'. absurd (cc at))
lock_all-Locked (none ∷ hs) n held =
    Locked-none hs held (lock_all (registered hs (n + 1)) held) (lock_all-Locked hs (n + 1) held)
lock_all-Locked (some a ∷ hs) n held =
    if-cases (Locked (some a ∷ hs) held) (mem a held) (λ t. inl (0, a, refl, t))
      (λ f.
        Locked-some a hs held (lock_all (registered hs (n + 1)) (a ∷ held)) f
          (lock_all-Locked hs (n + 1) (a ∷ held)))
