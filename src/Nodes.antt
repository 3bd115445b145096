-- ===== src/Nodes.antt =====
-- The linked nodes of the queues (include/boost/task/bounded_fifo.hpp and unbounded_fifo.hpp, `struct
-- node`): memory from addresses to nodes. A node lives as long as an intrusive_ptr holds it, so an
-- address is never handed out twice; counting the references and freeing are not modelled.
use boost_task.Prelude.{
  ℕ, ◌<◌, ◌≤◌, ◌≡◌, ◌≢◌, refl, ap, ◌∙◌, Option, some, List, [], ◌∷◌, ◌++◌, ◌==◌, if◌then◌else◌,
  arith,
}

pub record Node (T : Type 0) : Type 0 where
  pub va : T
  pub next : Option ℕ

abbrev pub Memory : Type 0 → Type 0
Memory T = ℕ → Node T

module _ {T : Type 0} where
  unfoldable pub update : Memory T → ℕ → Node T → Memory T
  update m a n b = if a == b then n else m b

  unfoldable pub write_va : Memory T → ℕ → T → Memory T
  write_va m a v = update m a (record (m a) { va = v })

  unfoldable pub write_next : Memory T → ℕ → ℕ → Memory T
  write_next m a n = update m a (record (m a) { next = some n })

  pub update_self : (m : Memory T) (a : ℕ) (n : Node T) → update m a n a ≡ n
  unfolding update
  update_self m a n = ground arith

  pub update_ne : (m : Memory T) (a b : ℕ) (n : Node T) → a ≢ b → update m a n b ≡ m b
  unfolding update
  update_ne m a b n h = ground arith

  -- From `h` the links lead through nodes that hold `xs` to `t`, which is the empty tail node; an address
  -- grows along a link, as a new node is linked behind older ones.
  abbrev pub Chain : Memory T → ℕ → ℕ → List T → Type 0
  Chain m h t [] = h ≡ t
  Chain m h t (x ∷ xs) = (n : ℕ) × (h < n) × ((m h).va ≡ x) × ((m h).next ≡ some n) × Chain m n t xs

  pub Chain-le : (m : Memory T) (h t : ℕ) (xs : List T) → Chain m h t xs → h ≤ t
  Chain-le m h t [] c = omega arith
  Chain-le m h t (x ∷ xs) (n, up, v, l, c) = omega (arith, Chain-le m n t xs c)

  -- A write from the tail on is not seen by the chain, nor is one before its head.
  pub Chain-update_above :
      (m : Memory T) (h t a : ℕ) (node : Node T) (xs : List T)
      → t ≤ a
      → Chain m h t xs
      → Chain (update m a node) h t xs
  Chain-update_above m h t a node [] above c = c
  Chain-update_above m h t a node (x ∷ xs) above (n, up, v, l, c) =
      let same = update_ne m a h node (omega (arith, Chain-le m n t xs c)) in
      (
        n,
        up,
        ap (λ (k : Node T). k.va) same ∙ v,
        ap (λ (k : Node T). k.next) same ∙ l,
        Chain-update_above m n t a node xs above c,
      )

  pub Chain-update_below :
      (m : Memory T) (h t a : ℕ) (node : Node T) (xs : List T)
      → a < h
      → Chain m h t xs
      → Chain (update m a node) h t xs
  Chain-update_below m h t a node [] below c = c
  Chain-update_below m h t a node (x ∷ xs) below (n, up, v, l, c) =
      let same = update_ne m a h node (omega arith) in
      (
        n,
        up,
        ap (λ (k : Node T). k.va) same ∙ v,
        ap (λ (k : Node T). k.next) same ∙ l,
        Chain-update_below m n t a node xs (omega arith) c,
      )

  -- The tail node gets a value and a successor, and the successor is the tail.
  pub Chain-append :
      (m : Memory T) (h t n : ℕ) (x : T) (xs : List T)
      → t < n
      → (m t).va ≡ x
      → (m t).next ≡ some n
      → Chain m h t xs
      → Chain m h n (xs ++ (x ∷ []))
  Chain-append m h t n x [] up v l c = rw c (n, up, v, l, refl)
  Chain-append m h t n x (y ∷ ys) up v l (k, up', v', l', c) =
      (k, up', v', l', Chain-append m k t n x ys up v l c)

  -- The head node's value is exchanged.
  pub Chain-swap :
      (m : Memory T) (h t : ℕ) (x y : T) (xs : List T)
      → Chain m h t (x ∷ xs)
      → Chain (write_va m h y) h t (y ∷ xs)
  unfolding write_va
  Chain-swap m h t x y xs (n, up, v, l, c) =
      let same = update_self m h (record (m h) { va = y }) in
      (
        n,
        up,
        ap (λ (k : Node T). k.va) same,
        ap (λ (k : Node T). k.next) same ∙ l,
        Chain-update_below m n t h _ xs up c,
      )
