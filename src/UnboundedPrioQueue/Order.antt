-- ===== src/UnboundedPrioQueue/Order.antt =====
-- What the unbounded priority queue keeps, and in what order it gives it.
use boost_task.Prelude.{◌≡◌, refl, sym, ◌∙◌, Bool, false, List, [], ◌∷◌, ◌++◌, if-cases, length}
use mathlib.Core.Path.{subst}
use mathlib.Core.List.Permᴰ
use mathlib.Core.List.{Permᴰ, append_assoc, append-nil}
use boost_task.UnboundedPrioQueue.{
  Value, NoneAbove, PriorityQueue, PrioQueue, Call, takes, construct, empty, try_take, step, run,
}
use boost_task.UnboundedPrioQueue.Inv.{NoneAbove-perm, NoneAbove-append, run-IsKept}

-- None comes before one that is earlier in the list.
unfoldable pub IsDescending :
    {T Attr : Type 0} → (Attr → Attr → Bool) → List (Value T Attr) → Type 0
unfolding NoneAbove
IsDescending less [] = Unit {0}
IsDescending less (v ∷ vs) = NoneAbove less v.attr vs × IsDescending less vs

abbrev pub all_takes : {T Attr : Type 0} → List T → List (Call T Attr)
all_takes [] = []
all_takes (ca ∷ cas) = takes ca ∷ all_takes cas

module _ {T Attr Q : Type 0} {less : Attr → Attr → Bool} (is_vacant : T → Bool)
    (heap : PriorityQueue T Attr Q less) where
  -- Whatever calls of put, try_take and deactivate are made of a new queue, in whatever order: the values
  -- of the puts that returned are, up to their order, the values taken and those still inside, and the
  -- semaphore has been posted once for each of them.
  pub nothing_lost :
      (cs : List (Call T Attr))
      → let q : PrioQueue T Attr Q = run is_vacant heap (construct is_vacant heap) cs in
        Permᴰ q.accepted (q.taken ++ heap.items q.queue) × (q.posts ≡ length q.accepted)
  unfolding construct
  nothing_lost cs =
      run-IsKept is_vacant heap (construct is_vacant heap) cs
        (subst (λ vs. Permᴰ [] vs) (sym heap.items-new) Permᴰ.nil, refl)

  -- What some takes give.
  abbrev Drained : PrioQueue T Attr Q → PrioQueue T Attr Q → Type 0
  Drained q q' =
      (out : List (Value T Attr)) × (q'.taken ≡ q.taken ++ out)
      × IsDescending less out
      × Permᴰ (heap.items q.queue) (out ++ heap.items q'.queue)

  Drained-one :
      (q q' : PrioQueue T Attr Q)
      → empty is_vacant heap q ≡ false
      → let tmp : Value T Attr = heap.top q.queue in
        Drained (record q { queue = heap.pop q.queue; taken = q.taken ++ (tmp ∷ []) }) q'
        → Drained q q'
  unfolding empty IsDescending NoneAbove
  Drained-one q q' full (out, same, ordered, kept) =
      let tmp = heap.top q.queue in
      let all : Permᴰ (heap.items q.queue) (tmp ∷ (out ++ heap.items q'.queue)) =
        Permᴰ.trans (heap.items-pop q.queue full) (Permᴰ.cons refl kept) in
      let (above_itself, above) =
        NoneAbove-perm less tmp.attr all (heap.top-NoneAbove q.queue full) in
      (
        tmp ∷ out,
        same ∙ append_assoc q.taken (tmp ∷ []) out,
        (NoneAbove-append less tmp.attr out (heap.items q'.queue) above, ordered),
        all,
      )

  -- Takes that nobody interrupts, as many as are made and whatever the callers' variables hold: what they
  -- take comes by priority, none before one of a lower priority, and is, up to the order, what has left
  -- the queue.
  pub takes_in_order :
      (q : PrioQueue T Attr Q) (cas : List T)
      → let q' : PrioQueue T Attr Q = run is_vacant heap q (all_takes cas) in
        (out : List (Value T Attr)) × (q'.taken ≡ q.taken ++ out)
        × IsDescending less out
        × Permᴰ (heap.items q.queue) (out ++ heap.items q'.queue)
  unfolding run step try_take IsDescending
  takes_in_order q [] = ([], sym (append-nil q.taken), tt, Permᴰ.refl (heap.items q.queue))
  takes_in_order q (ca ∷ cas) =
      let tmp = heap.top q.queue in
      let taken = record q { queue = heap.pop q.queue; taken = q.taken ++ (tmp ∷ []) } in
      if-cases
        (λ (r : Bool × T × PrioQueue T Attr Q). Drained q (run is_vacant heap r.2 (all_takes cas)))
        (empty is_vacant heap q) (λ t. takes_in_order q cas)
        (λ f. Drained-one q (run is_vacant heap taken (all_takes cas)) f (takes_in_order taken cas))
