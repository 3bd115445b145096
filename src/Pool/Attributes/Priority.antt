-- ===== src/Pool/Attributes/Priority.antt =====
-- Work that is submitted with an attribute, and the order in which it is taken.
use boost_task.Prelude.{◌+◌, ◌≡◌, refl, ap, sym, ◌∙◌, Bool, true, false, some, List, [], ◌∷◌, ◌++◌}
use mathlib.Core.Path.{subst}
use mathlib.Core.List.Permᴰ
use mathlib.Core.List.{Permᴰ, append-nil}
use boost_task.Prelude.Int.{pos}
use boost_task.Semaphore.{Sysv, returns}
use boost_task.FastSemaphore
use boost_task.FastSemaphore.{Fast}
use boost_task.UnboundedPrioQueue
use boost_task.UnboundedPrioQueue.{Value, PriorityQueue, PrioQueue, value}
use boost_task.UnboundedPrioQueue.Order.{IsDescending, all_takes, takes_in_order}
use boost_task.Pool.{done, closed}
use boost_task.Pool.Attributes.{
  Pool, put_value, put_queue, after_post, submit, submit_then, submits, take_global, takes,
}

module _ (os : Sysv) {T Attr Q : Type 0} {less : Attr → Attr → Bool} (is_vacant : T → Bool)
    (heap : PriorityQueue T Attr Q less) where
  abbrev P : Type 0
  P = Pool os is_vacant heap

  -- None of the callables is empty.
  abbrev pub AllPresent : List (Value T Attr) → Type 0
  AllPresent [] = Unit {0}
  AllPresent (v ∷ vs) = (is_vacant v.ca ≡ false) × AllPresent vs

  -- An open pool over an open queue.
  abbrev pub IsOpen : P → Type 0
  IsOpen p = (p.active ≡ true) × (p.queue.active ≡ true)

  -- The posts on the pool's semaphore, one for each value, return.
  abbrev pub PostsReturn : Fast os → List (Value T Attr) → Type 0
  PostsReturn f [] = Unit {0}
  PostsReturn f (v ∷ vs) =
      (f' : Fast os) × (FastSemaphore.post os f (pos 1) ≡ returns f') × PostsReturn f' vs

  abbrev filled : P → Value T Attr → Fast os → P
  filled p v f = record p {
    fsem = f;
    queue = record p.queue {
      queue = heap.push p.queue.queue v;
      posts = p.queue.posts + 1;
      accepted = v ∷ p.queue.accepted;
    };
  }

  submit-filled :
      (p : P) (v : Value T Attr) (f : Fast os)
      → IsOpen p
      → is_vacant v.ca ≡ false
      → FastSemaphore.post os p.fsem (pos 1) ≡ returns f
      → submit os is_vacant heap p v.ca v.attr ≡ some (done (filled p v f))
  unfolding submit closed value put_value put_queue after_post UnboundedPrioQueue.put
  submit-filled p v f (open_pool, open_queue) present posted =
      rw (open_pool, present, open_queue, posted) refl

  -- All that is submitted to an open pool is accepted, and in the queue up to the order.
  submits-queue :
      (p : P) (vs : List (Value T Attr))
      → IsOpen p
      → AllPresent vs
      → PostsReturn p.fsem vs
      → (p' : P) × (submits os is_vacant heap p vs ≡ some (done p'))
        × (p'.queue.taken ≡ p.queue.taken)
        × Permᴰ (vs ++ heap.items p.queue.queue) (heap.items p'.queue.queue)
  unfolding submits submit_then
  submits-queue p [] ready present posts = (p, refl, refl, Permᴰ.refl (heap.items p.queue.queue))
  submits-queue p (v ∷ vs) ready (here, there) (f, posted, posts) =
      let (p', returned, taken, kept) = submits-queue (filled p v f) vs ready there posts in
      (
        p',
        ap (λ r. submit_then os is_vacant heap r (λ p''. submits os is_vacant heap p'' vs))
              (submit-filled p v f ready here posted)
            ∙ returned,
        taken,
        Permᴰ.trans (Permᴰ.symm (Permᴰ.middle v vs (heap.items p.queue.queue))) (
            Permᴰ.trans (Permᴰ.append_left vs (Permᴰ.symm (heap.items-push p.queue.queue v))) kept),
      )

  takes-run :
      (p : P) (cas : List T)
      → (takes os is_vacant heap p cas).queue
        ≡ UnboundedPrioQueue.run is_vacant heap p.queue (all_takes cas)
  unfolding takes take_global UnboundedPrioQueue.run UnboundedPrioQueue.step
  takes-run p [] = refl
  takes-run p (ca ∷ cas) = takes-run (take_global os is_vacant heap p ca).2 cas

  -- Work that is submitted with attributes to an open pool over an open queue that is empty, none of it an
  -- empty callable, where the posts on the pool's semaphore return, is all accepted; and however many takes the workers then make, one after another, what
  -- they take comes by priority, none before one of a lower priority, and with what is left in the
  -- queue it is all that was submitted.
  pub taken_by_priority :
      (p : P) (vs : List (Value T Attr)) (cas : List T)
      → IsOpen p
      → heap.items p.queue.queue ≡ []
      → AllPresent vs
      → PostsReturn p.fsem vs
      → (p' : P) × (submits os is_vacant heap p vs ≡ some (done p'))
        × let q : PrioQueue T Attr Q = (takes os is_vacant heap p' cas).queue in
          (out : List (Value T Attr)) × (q.taken ≡ p.queue.taken ++ out)
          × IsDescending less out
          × Permᴰ vs (out ++ heap.items q.queue)
  taken_by_priority p vs cas ready nothing present posts =
      let (p', returned, same, kept) = submits-queue p vs ready present posts in
      let (out, taken, ordered, left) = takes_in_order is_vacant heap p'.queue cas in
      let all : Permᴰ vs (heap.items p'.queue.queue) =
        subst (λ xs. Permᴰ xs (heap.items p'.queue.queue))
          (ap (λ xs. vs ++ xs) nothing ∙ append-nil vs) kept in
      (
        p',
        returned,
        subst
            (λ (q : PrioQueue T Attr Q).
              (out : List (Value T Attr)) × (q.taken ≡ p.queue.taken ++ out)
              × IsDescending less out
              × Permᴰ vs (out ++ heap.items q.queue))
            (sym (takes-run p' cas))
            (out, taken ∙ ap (λ ts. ts ++ out) same, ordered, Permᴰ.trans all left),
      )
