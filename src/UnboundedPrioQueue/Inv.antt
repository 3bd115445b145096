-- ===== src/UnboundedPrioQueue/Inv.antt =====
-- What stays of the values of the unbounded priority queue.
use boost_task.Prelude.{
  ◌+◌, ◌≡◌, refl, ap, sym, ◌∙◌, Bool, false, not, List, [], ◌∷◌, ◌++◌, if-cases, length, arith,
}
use mathlib.Core.Path.{subst}
use mathlib.Core.List.Permᴰ
use mathlib.Core.List.{Permᴰ, append_assoc}
use boost_task.UnboundedPrioQueue.{
  Value, NoneAbove, PriorityQueue, PrioQueue, Call, puts, takes, closes, empty, deactivate, put,
  try_take, after_put, step, run,
}

module _ {T Attr : Type 0} (less : Attr → Attr → Bool) (x : Attr) where
  pub NoneAbove-perm :
      {xs ys : List (Value T Attr)} → Permᴰ xs ys → NoneAbove less x xs → NoneAbove less x ys
  unfolding NoneAbove
  NoneAbove-perm Permᴰ.nil none_above = none_above
  NoneAbove-perm (Permᴰ.cons e d) (here, there) =
      (ap (λ v. less x v.attr) (sym e) ∙ here, NoneAbove-perm d there)
  NoneAbove-perm (Permᴰ.swap e e') (first, (second, there)) =
      (ap (λ v. less x v.attr) (sym e') ∙ second, (ap (λ v. less x v.attr) (sym e) ∙ first, there))
  NoneAbove-perm (Permᴰ.trans d d') none_above = NoneAbove-perm d' (NoneAbove-perm d none_above)

  pub NoneAbove-append :
      (xs ys : List (Value T Attr)) → NoneAbove less x (xs ++ ys) → NoneAbove less x xs
  unfolding NoneAbove
  NoneAbove-append [] ys none_above = tt
  NoneAbove-append (v ∷ xs) ys (here, there) = (here, NoneAbove-append xs ys there)

module _ {T Attr Q : Type 0} {less : Attr → Attr → Bool} (is_vacant : T → Bool)
    (heap : PriorityQueue T Attr Q less) where
  -- The values put are those taken and those inside, and each put has posted once.
  abbrev pub IsKept : PrioQueue T Attr Q → Type 0
  IsKept q = Permᴰ q.accepted (q.taken ++ heap.items q.queue) × (q.posts ≡ length q.accepted)

  taken-IsKept :
      (q : PrioQueue T Attr Q)
      → empty is_vacant heap q ≡ false
      → IsKept q
      → let tmp : Value T Attr = heap.top q.queue in
        IsKept (record q { queue = heap.pop q.queue; taken = q.taken ++ (tmp ∷ []) })
  unfolding empty
  taken-IsKept q full (kept, posted) =
      let tmp = heap.top q.queue in
      let moved : Permᴰ (q.taken ++ heap.items q.queue)
          (q.taken ++ (tmp ∷ heap.items (heap.pop q.queue))) =
        Permᴰ.append_left q.taken (heap.items-pop q.queue full) in
      (
        subst (λ vs. Permᴰ q.accepted vs)
            (sym (append_assoc q.taken (tmp ∷ []) (heap.items (heap.pop q.queue))))
            (Permᴰ.trans kept moved),
        posted,
      )

  put-IsKept :
      (q : PrioQueue T Attr Q) (va : Value T Attr)
      → IsKept q
      → IsKept (record q {
        queue = heap.push q.queue va;
        posts = q.posts + 1;
        accepted = va ∷ q.accepted;
      })
  put-IsKept q va (kept, posted) = (
    Permᴰ.trans (Permᴰ.cons refl kept) (
        Permᴰ.trans (Permᴰ.symm (Permᴰ.middle va q.taken (heap.items q.queue)))
          (Permᴰ.append_left q.taken (Permᴰ.symm (heap.items-push q.queue va)))),
    omega (arith, posted),
  )

  step-IsKept :
      (q : PrioQueue T Attr Q) (c : Call T Attr) → IsKept q → IsKept (step is_vacant heap q c)
  unfolding step put try_take deactivate after_put
  step-IsKept q (puts va) kept =
      if-cases (λ o. IsKept (after_put is_vacant heap q o)) (not q.active) (λ t. kept)
        (λ f. put-IsKept q va kept)
  step-IsKept q (takes ca) kept =
      if-cases (λ (r : Bool × T × PrioQueue T Attr Q). IsKept r.2) (empty is_vacant heap q)
        (λ t. kept) (λ f. taken-IsKept q f kept)
  step-IsKept q closes kept = kept

  pub run-IsKept :
      (q : PrioQueue T Attr Q) (cs : List (Call T Attr))
      → IsKept q
      → IsKept (run is_vacant heap q cs)
  unfolding run
  run-IsKept q [] kept = kept
  run-IsKept q (c ∷ cs) kept = run-IsKept (step is_vacant heap q c) cs (step-IsKept q c kept)
