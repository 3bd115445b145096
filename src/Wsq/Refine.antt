-- ===== src/Wsq/Refine.antt =====
-- The ring with its indices against the list of its elements.
use boost_task.Prelude.{
  ℕ, ◌+◌, ◌-◌, ◌^◌, ◌<◌, ◌≤◌, ◌≡◌, refl, ap, ◌∙◌, Bool, true, false, none, some, List, [], ◌∷◌,
  ◌++◌, length, dec_lt, arith,
}
use boost_task.Prelude.Int.{pos}
use boost_task.Semaphore.{Sysv, returns}
use boost_task.FastSemaphore.{Fast}
use boost_task.FastSemaphore.Laws.{post-counts}
use boost_task.Wsq.{Wsq, store, grow, insert, try_take, try_steal, put, run}
use boost_task.Wsq.Window.{window}
use boost_task.Wsq.Inv.{
  IsValid, contents, capacity_bounds, size_lem, has_room_lem, store-IsValid, contents-store,
  try_take_some, try_take_none, try_steal_some, try_steal_none,
}
use boost_task.Wsq.Grow.{grow-IsValid, contents-grow, grow_indices}
use native.Mathlib.Nat.{pow-suc, one-le-pow}
use boost_task.Wsq.Deque
use boost_task.Wsq.Deque.{Op, Reply, take_back-append}

below_limit : (k : ℕ) → 2 ^ k < 2 ^ 30 → k ≤ 30 → k < 30
below_limit k h small = elim (dec_lt k 30) [
  | yes p ↦ p
  | no q ↦ let e : k ≡ 30 = omega arith in absurd (omega (arith, rw e at h))
]

module _ {T S : Type 0} (vacant : T) where
  -- The two ways through `put`.
  insert-fits :
      {k : ℕ} {w : Wsq T S} (ca : T)
      → IsValid k w
      → w.tail_idx < w.head_idx + 2 ^ k
      → insert vacant w ca ≡ store w w.tail_idx ca
  unfolding insert
  insert-fits {k} {w} ca v room = ground (arith, has_room_lem v)

  insert-full :
      {k : ℕ} {w : Wsq T S} (ca : T)
      → IsValid k w
      → w.tail_idx ≡ w.head_idx + 2 ^ k
      → insert vacant w ca ≡ store (grow vacant w (2 ^ k)) (2 ^ k) ca
  unfolding insert
  insert-full {k} {w} ca v full =
      ground (arith, has_room_lem v, size_lem v, capacity_bounds k v.large v.small)

  -- What `put` does to a queue `w` with elements and index bound of its own.
  abbrev Appends : Wsq T S → T → Wsq T S → Type 0
  Appends w ca w' =
      (k : ℕ) × IsValid k w'
      × (contents vacant w' ≡ contents vacant w ++ (ca ∷ []))
      × (w'.tail_idx ≤ w.tail_idx + 1)
      × (w'.fsem ≡ w.fsem)

  store-Appends :
      {k : ℕ} {w : Wsq T S} (t : ℕ) (ca : T)
      → IsValid k w
      → w.tail_idx < w.head_idx + 2 ^ k
      → w.tail_idx + 1 < 2 ^ 31
      → w.tail_idx ≡ t
      → Appends w ca (store w t ca)
  unfolding store
  store-Appends {k} {w} t ca v room fits e = rw (← e) (
    k,
    store-IsValid vacant ca v room fits,
    contents-store vacant ca v room fits,
    omega arith,
    refl,
  )

  -- `put` appends at the back, growing the ring where it is full, and keeps the invariant.
  pub insert_refines :
      {k : ℕ} {w : Wsq T S} (ca : T)
      → IsValid k w
      → w.tail_idx + 1 < 2 ^ 30
      → Appends w ca (insert vacant w ca)
  insert_refines {k} {w} ca v fits = elim (dec_lt w.tail_idx (w.head_idx + 2 ^ k)) [
    | yes room ↦ rw (insert-fits ca v room) (store-Appends w.tail_idx ca v room (omega arith) refl)
    | no other ↦ rw (insert-full ca v (omega (arith, v.held))) (
        let full : w.tail_idx ≡ w.head_idx + 2 ^ k = omega (arith, v.held) in
        let few = below_limit k (omega arith) v.small in
        let (head, tail, fsem) = grow_indices vacant w (2 ^ k) in
        let (k', v', held, bound, same) =
          store-Appends (2 ^ k) ca (grow-IsValid vacant w v full few)
            (omega (arith, pow-suc 2 k, one-le-pow k 2 (omega arith))) (omega arith) tail in
        (
          k',
          v',
          held ∙ ap (λ (xs : List T). xs ++ (ca ∷ [])) (contents-grow vacant w v full few),
          omega arith,
          same ∙ fsem,
        ))
  ]

  contents-empty : (w : Wsq T S) → w.head_idx ≡ w.tail_idx → contents vacant w ≡ []
  contents-empty w e =
      ap (window vacant w.mask w.array w.head_idx)
        (let n : w.tail_idx - w.head_idx ≡ 0 = omega arith in n)

  -- `try_take` answers as the deque does at its back, and leaves the ring holding what the deque holds.
  pub take_refines :
      {k : ℕ} {w : Wsq T S} (ca : T)
      → IsValid k w
      → let (taken, out, w') = try_take vacant w ca in
        ((taken, out, contents vacant w') ≡ Deque.take_back (contents vacant w) ca)
        × IsValid k w'
        × (w'.tail_idx ≤ w.tail_idx)
  take_refines {k} {w} ca v = elim (dec_lt w.head_idx w.tail_idx) [
    | yes more ↦
        let (out, w', e, held, v', bound) = try_take_some vacant ca v more in
        rw (e, held, take_back-append) (refl, v', bound)
    | no done ↦
        let same : w.head_idx ≡ w.tail_idx = omega (arith, v.ordered) in
        rw (try_take_none vacant ca v same, contents-empty w same)
          (unfold Deque.take_back in refl, v, omega arith)
  ]

  -- `try_steal` does so at the front; without the lock it changes nothing.
  pub steal_refines :
      {k : ℕ} {w : Wsq T S} (lock : Bool) (ca : T)
      → IsValid k w
      → let (taken, out, w') = try_steal vacant lock w ca in
        ((taken, out, contents vacant w') ≡ Deque.take_front lock (contents vacant w) ca)
        × IsValid k w'
        × (w'.tail_idx ≤ w.tail_idx)
  steal_refines {k} {w} false ca v = unfold try_steal Deque.take_front in (refl, v, omega arith)
  steal_refines {k} {w} true ca v = elim (dec_lt w.head_idx w.tail_idx) [
    | yes more ↦
        let (out, w', e, held, v', bound) = try_steal_some vacant ca v more in
        rw (e, held) (unfold Deque.take_front in refl, v', bound)
    | no done ↦
        let same : w.head_idx ≡ w.tail_idx = omega (arith, v.ordered) in
        rw (try_steal_none vacant ca v same, contents-empty w same)
          (unfold Deque.take_front in refl, v, omega arith)
  ]

  -- Calls in a row answer as those of the deque of the same elements, while the indices stay below 2 ^ 30.
  pub run_refines :
      (ops : List (Op T)) {k : ℕ} {w : Wsq T S}
      → IsValid k w
      → w.tail_idx + length ops < 2 ^ 30
      → run vacant w ops ≡ Deque.run (contents vacant w) ops
  unfolding run Deque.run
  run_refines [] v fits = refl
  run_refines (Op.put ca ∷ ops) {k} {w} v fits =
      let (k', v', held, bound, same) = insert_refines ca v (omega arith) in
      ap (◌∷◌ none) (run_refines ops v' (omega arith) ∙ ap (λ (xs : List T). Deque.run xs ops) held)
  run_refines (Op.take ca ∷ ops) {k} {w} v fits =
      let (same, v', bound) = take_refines ca v in
      ap (◌∷◌ (some ((try_take vacant w ca).0, (try_take vacant w ca).1)))
        (run_refines ops v' (omega arith))
      ∙ ap (λ (r : Bool × T × List T). some (r.0, r.1) ∷ Deque.run r.2 ops) same
  run_refines (Op.steal lock ca ∷ ops) {k} {w} v fits =
      let (same, v', bound) = steal_refines lock ca v in
      ap (◌∷◌ (some ((try_steal vacant lock w ca).0, (try_steal vacant lock w ca).1)))
        (run_refines ops v' (omega arith))
      ∙ ap (λ (r : Bool × T × List T). some (r.0, r.1) ∷ Deque.run r.2 ops) same

-- `put` with its `fsem_.post()`: the element at the back, and one more on a semaphore with no sleepers.
module _ (os : Sysv) {T : Type 0} (vacant : T) where
  pub put_refines :
      {k : ℕ} {w : Wsq T (Fast os)} (ca : T) (c : ℕ)
      → IsValid k w
      → w.tail_idx + 1 < 2 ^ 30
      → w.fsem.sem_count ≡ pos c
      → c + 1 < 2 ^ 31
      → (w' : Wsq T (Fast os)) × (put os vacant w ca ≡ returns w')
        × (k' : ℕ) × IsValid k' w'
        × (contents vacant w' ≡ contents vacant w ++ (ca ∷ []))
        × (w'.fsem ≡ record w.fsem { sem_count = pos (c + 1) })
  unfolding put
  put_refines {k} {w} ca c v fits count room =
      let (k', v', held, bound, same) = insert_refines vacant ca v fits in
      let posted = post-counts os w.fsem c 1 count room in
      (
        record (insert vacant w ca) { fsem = record w.fsem { sem_count = pos (c + 1) } },
        rw (same, posted) refl,
        k',
        omega (arith, v'),
        held,
        refl,
      )
