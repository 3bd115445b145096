-- ===== src/Wsq/Inv.antt =====
-- The representation invariant of the work-stealing queue, and the list that it stands for.
use boost_task.Prelude.{
  ℕ, suc, ◌+◌, ◌-◌, ◌^◌, ◌<◌, ◌≤◌, ◌≡◌, refl, ap, ap₂, sym, ◌∙◌, true, false, List, [], ◌∷◌, ◌++◌,
  get_or, set, length, length-set, length-replicate, leb, arith,
}
use boost_task.Wsq.{u32, Wsq, slot, size, store, has_room, construct, try_take, try_steal}
use boost_task.Wsq.Window.{window, window-last_at, window-push_at, window-above_at, window-below_at}
use native.Mathlib.Nat.{pow-le-pow_right}

pub capacity_bounds : (k : ℕ) → 5 ≤ k → k ≤ 30 → (32 ≤ 2 ^ k) × (2 ^ k ≤ 2 ^ 30)
capacity_bounds k large small =
    (pow-le-pow_right {n = 2} (omega arith) large, pow-le-pow_right (omega arith) small)

module _ {T S : Type 0} where
  -- A queue whose ring has 2 ^ k slots.
  pub record IsValid (k : ℕ) (w : Wsq T S) : Type 0 where
    pub large : 5 ≤ k
    pub small : k ≤ 30
    pub capacity_pow : w.capacity ≡ 2 ^ k
    pub mask_pow : w.mask ≡ 2 ^ k - 1
    pub slots : length w.array ≡ 2 ^ k
    pub ordered : w.head_idx ≤ w.tail_idx
    pub held : w.tail_idx ≤ w.head_idx + 2 ^ k
    pub no_wrap : w.tail_idx < 2 ^ 31

  -- `has_room` decides whether a slot is free, and `size` counts the elements.
  pub size_lem : {k : ℕ} {w : Wsq T S} → IsValid k w → size w ≡ w.tail_idx - w.head_idx
  unfolding size
  size_lem {k} v = omega (arith, capacity_bounds k)

  pub has_room_lem :
      {k : ℕ} {w : Wsq T S} → IsValid k w → has_room w ≡ leb (w.tail_idx + 1) (w.head_idx + 2 ^ k)
  unfolding has_room
  has_room_lem {k} {w} v = ground (arith, capacity_bounds k v.large v.small)

module _ {T S : Type 0} (vacant : T) where
  -- The elements from front to back.
  abbrev pub contents : Wsq T S → List T
  contents w = window vacant w.mask w.array w.head_idx (w.tail_idx - w.head_idx)

  pub construct-IsValid : (fsem : S) → IsValid 5 (construct vacant fsem)
  unfolding construct
  construct-IsValid fsem = omega (arith, length-replicate 32 vacant)

  pub store-IsValid :
      {k : ℕ} {w : Wsq T S} (ca : T)
      → IsValid k w
      → w.tail_idx < w.head_idx + 2 ^ k
      → w.tail_idx + 1 < 2 ^ 31
      → IsValid k (store w w.tail_idx ca)
  unfolding store
  store-IsValid {w} ca v room fits = omega (arith, length-set w.array (slot w w.tail_idx) ca, v)

  pub contents-store :
      {k : ℕ} {w : Wsq T S} (ca : T)
      → IsValid k w
      → w.tail_idx < w.head_idx + 2 ^ k
      → w.tail_idx + 1 < 2 ^ 31
      → contents (store w w.tail_idx ca) ≡ contents w ++ (ca ∷ [])
  unfolding store
  contents-store {k} {w} ca v room fits =
      window-push_at vacant k v.mask_pow w.array ca w.head_idx (w.tail_idx - w.head_idx)
        (omega arith) (omega arith) (omega arith) (omega arith)

  -- The swap at the back takes the last element.
  pub take_last :
      {k : ℕ} {w : Wsq T S} (t : ℕ) (ca : T)
      → IsValid k w
      → w.tail_idx ≡ suc t
      → w.head_idx ≤ t
      → let w' : Wsq T S = record w { tail_idx = t; array = set w.array (slot w t) ca } in
        (contents w ≡ contents w' ++ (get_or w.array (slot w t) vacant ∷ [])) × IsValid k w'
  take_last {k} {w} t ca v last below =
      let kept =
        window-above_at vacant k v.mask_pow w.array ca w.head_idx t (t - w.head_idx) (omega arith)
          (omega arith) in
      (
        window-last_at vacant k v.mask_pow w.array w.head_idx (t - w.head_idx) (omega arith)
              (omega arith)
            ∙ ap (λ (xs : List T). xs ++ (get_or w.array (slot w t) vacant ∷ [])) (sym kept),
        omega (arith, length-set w.array (slot w t) ca, v),
      )

  -- Where there is an element, `try_take` gives the one at the back; else it changes nothing.
  pub try_take_some :
      {k : ℕ} {w : Wsq T S} (ca : T)
      → IsValid k w
      → w.head_idx < w.tail_idx
      → (out : T) × (w' : Wsq T S) × (try_take vacant w ca ≡ (true, out, w'))
        × (contents w ≡ contents w' ++ (out ∷ []))
        × IsValid k w'
        × (w'.tail_idx ≤ w.tail_idx)
  unfolding try_take
  try_take_some {k} {w} ca v more =
      let last : ℕ = w.tail_idx - 1 in
      let (held, valid) = take_last last ca v (omega arith) (omega arith) in
      (
        get_or w.array (slot w last) vacant,
        record w { tail_idx = last; array = set w.array (slot w last) ca },
        ground arith,
        held,
        valid,
        omega arith,
      )

  pub try_take_none :
      {k : ℕ} {w : Wsq T S} (ca : T)
      → IsValid k w
      → w.head_idx ≡ w.tail_idx
      → try_take vacant w ca ≡ (false, ca, w)
  unfolding try_take
  try_take_none {k} {w} ca v done = ground arith

  -- The swap at the front takes the first element.
  pub take_first :
      {k : ℕ} {w : Wsq T S} (h : ℕ) (ca : T)
      → IsValid k w
      → w.head_idx ≡ h
      → h < w.tail_idx
      → let w' : Wsq T S = record w { head_idx = suc h; array = set w.array (slot w h) ca } in
        (contents w ≡ get_or w.array (slot w h) vacant ∷ contents w') × IsValid k w'
  take_first {k} {w} h ca v first more =
      let n : ℕ = w.tail_idx - suc h in
      let count : w.tail_idx - w.head_idx ≡ suc n = omega arith in
      let kept =
        window-below_at vacant k v.mask_pow w.array ca (suc h) h n (omega arith) (omega arith) in
      (
        ap₂ (window vacant w.mask w.array) first count
            ∙ ap (λ (xs : List T). get_or w.array (slot w h) vacant ∷ xs) (sym kept),
        omega (arith, length-set w.array (slot w h) ca, v),
      )

  -- `try_steal` gives the element at the front.
  pub try_steal_some :
      {k : ℕ} {w : Wsq T S} (ca : T)
      → IsValid k w
      → w.head_idx < w.tail_idx
      → (out : T) × (w' : Wsq T S) × (try_steal vacant true w ca ≡ (true, out, w'))
        × (contents w ≡ out ∷ contents w')
        × IsValid k w'
        × (w'.tail_idx ≤ w.tail_idx)
  unfolding try_steal
  try_steal_some {k} {w} ca v more =
      let first : ℕ = w.head_idx in
      let next : u32 (first + 1) ≡ suc first = omega arith in
      let (held, valid) = take_first first ca v refl more in
      (
        get_or w.array (slot w first) vacant,
        record w { head_idx = suc first; array = set w.array (slot w first) ca },
        ground arith,
        held,
        valid,
        omega arith,
      )

  pub try_steal_none :
      {k : ℕ} {w : Wsq T S} (ca : T)
      → IsValid k w
      → w.head_idx ≡ w.tail_idx
      → try_steal vacant true w ca ≡ (false, ca, w)
  unfolding try_steal
  try_steal_none {k} {w} ca v done = ground arith
