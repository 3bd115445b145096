-- ===== src/Wsq/Shared/Linear.antt =====
-- The calls of an owner and of thieves that overlap, against those of one deque.
use boost_task.Prelude.{
  ℕ, ◌+◌, ◌^◌, ◌<◌, ◌≤◌, ◌≡◌, refl, ap, ap₂, sym, ◌∙◌, none, some, List, [], ◌∷◌, arith,
}
use boost_task.Wsq.{Wsq}
use boost_task.Wsq.Inv.{IsValid, contents}
use boost_task.Wsq.Deque
use boost_task.Wsq.Deque.{Op, Reply}
use boost_task.Wsq.Shared.{
  Shared, Ended, Event, puts, takes, looks, swaps, relocks, steals, checks, grabs, step, emit,
  history, final, at_rest, ops_of, replies_of,
}
use boost_task.Wsq.Shared.Inv.{Explains, front_of, back_of, settled, Ok, Moved}
use boost_task.Wsq.Shared.Steps.{
  look-Moved, take-Moved, swap-Moved, relock-Moved, steal-Moved, check-Moved, grab-Moved, put-Moved,
}

abbrev added : {T : Type 0} → Event T → ℕ
added (puts ca) = 1
added (takes ca) = 0
added looks = 0
added swaps = 0
added relocks = 0
added (steals ca) = 0
added checks = 0
added grabs = 0

-- The calls of `put` among the events.
abbrev pub all_added : {T : Type 0} → List (Event T) → ℕ
all_added [] = 0
all_added (e ∷ es) = added e + all_added es

explain :
    {T : Type 0} (xs ys : List T) (o : Ended T) (log : List (Op T × Reply T))
    → Explains xs o ys
    → Deque.run ys (ops_of log) ≡ replies_of log
    → Deque.run xs (ops_of (emit o log)) ≡ replies_of (emit o log)
unfolding Explains Deque.run emit
explain xs ys none log same h = rw same h
explain xs ys (some (Op.put x, reply)) log (answer, rest) h =
    ap₂ ◌∷◌ (sym answer) (ap (λ zs. Deque.run zs (ops_of log)) (sym rest) ∙ h)
explain xs ys (some (Op.take ca, reply)) log (answer, rest) h =
    ap₂ ◌∷◌ (sym answer) (ap (λ zs. Deque.run zs (ops_of log)) (sym rest) ∙ h)
explain xs ys (some (Op.steal lock ca, reply)) log (answer, rest) h =
    ap₂ ◌∷◌ (sym answer) (ap (λ zs. Deque.run zs (ops_of log)) (sym rest) ∙ h)

explain_after :
    {T : Type 0} (xs ys : List T) (o : Ended T) (log : List (Op T × Reply T))
    → Explains xs o ys
    → Deque.after xs (ops_of (emit o log)) ≡ Deque.after ys (ops_of log)
unfolding Explains Deque.after emit
explain_after xs ys none log same = ap (λ zs. Deque.after zs (ops_of log)) same
explain_after xs ys (some (Op.put x, reply)) log (answer, rest) =
    ap (λ zs. Deque.after zs (ops_of log)) (sym rest)
explain_after xs ys (some (Op.take ca, reply)) log (answer, rest) =
    ap (λ zs. Deque.after zs (ops_of log)) (sym rest)
explain_after xs ys (some (Op.steal lock ca, reply)) log (answer, rest) =
    ap (λ zs. Deque.after zs (ops_of log)) (sym rest)

module _ {T S : Type 0} (vacant : T) where
  step-Moved :
      {k : ℕ} (s : Shared T S) (e : Event T)
      → Ok k s.ring s.owner s.thief
      → back_of s.ring.tail_idx s.owner + added e ≤ front_of s.ring.head_idx s.thief + 2 ^ k
      → back_of s.ring.tail_idx s.owner + added e < 2 ^ 31
      → Moved vacant k (added e) s.ring s.owner s.thief (step vacant s e)
  unfolding step
  step-Moved s (puts ca) ok room fits =
      put-Moved vacant s.ring s.owner s.thief ca ok (omega (arith, room)) (omega (arith, fits))
  step-Moved s (takes ca) ok room fits = take-Moved vacant s.ring s.owner s.thief ca ok
  step-Moved s looks ok room fits = look-Moved vacant s.ring s.owner s.thief ok
  step-Moved s swaps ok room fits = swap-Moved vacant s.ring s.owner s.thief ok
  step-Moved s relocks ok room fits = relock-Moved vacant s.ring s.owner s.thief ok
  step-Moved s (steals ca) ok room fits = steal-Moved vacant s.ring s.owner s.thief ca ok
  step-Moved s checks ok room fits = check-Moved vacant s.ring s.owner s.thief ok
  step-Moved s grabs ok room fits = grab-Moved vacant s.ring s.owner s.thief ok

  history_explained :
      {k : ℕ} (s : Shared T S) (es : List (Event T))
      → Ok k s.ring s.owner s.thief
      → back_of s.ring.tail_idx s.owner + all_added es ≤ front_of s.ring.head_idx s.thief + 2 ^ k
      → back_of s.ring.tail_idx s.owner + all_added es < 2 ^ 31
      → Deque.run (contents vacant (settled s.ring s.owner s.thief)) (ops_of (history vacant s es))
        ≡ replies_of (history vacant s es)
  unfolding history Deque.run
  history_explained s [] ok room fits = refl
  history_explained s (e ∷ es) ok room fits =
      let m = step-Moved s e ok (omega (arith, room)) (omega (arith, fits)) in
      let (s', ended) = step vacant s e in
      explain _ _ ended (history vacant s' es) m.explained
        (history_explained s' es m.ok (omega (arith, room, m.count)) (omega (arith, fits, m.end)))

  final_explained :
      {k : ℕ} (s : Shared T S) (es : List (Event T))
      → Ok k s.ring s.owner s.thief
      → back_of s.ring.tail_idx s.owner + all_added es ≤ front_of s.ring.head_idx s.thief + 2 ^ k
      → back_of s.ring.tail_idx s.owner + all_added es < 2 ^ 31
      → let s' = final vacant s es in
        contents vacant (settled s'.ring s'.owner s'.thief)
        ≡ Deque.after
            (contents vacant (settled s.ring s.owner s.thief))
            (ops_of (history vacant s es))
  unfolding history final Deque.after
  final_explained s [] ok room fits = refl
  final_explained s (e ∷ es) ok room fits =
      let m = step-Moved s e ok (omega (arith, room)) (omega (arith, fits)) in
      let (s', ended) = step vacant s e in
      final_explained s' es m.ok (omega (arith, room, m.count)) (omega (arith, fits, m.end))
      ∙ sym (explain_after _ _ ended (history vacant s' es) m.explained)

  -- An owner's puts and takes and the steals of any thieves overlap, access by access and in any order, on
  -- a valid ring of 2 ^ k slots that has room for all that are put, with indices below 2 ^ 31. The calls
  -- that end answer, in the order in which they end, as the same calls of the deque of the ring's
  -- elements, where a steal that finds nothing counts as one that did not get the lock; and the ring is
  -- left with what the deque is left with, once what is under way has been taken back.
  pub overlapping_calls :
      {k : ℕ} {w : Wsq T S} (es : List (Event T))
      → IsValid k w
      → w.tail_idx + all_added es ≤ w.head_idx + 2 ^ k
      → w.tail_idx + all_added es < 2 ^ 31
      → let log = history vacant (at_rest w) es in
        let s = final vacant (at_rest w) es in
        (Deque.run (contents vacant w) (ops_of log) ≡ replies_of log)
        × (contents vacant (settled s.ring s.owner s.thief)
            ≡ Deque.after (contents vacant w) (ops_of log))
  overlapping_calls {k} {w} es v room fits =
      let s : Shared T S = at_rest w in
      let ok : Ok k s.ring s.owner s.thief = record { valid = v; owner_ok = tt; thief_ok = tt } in
      (history_explained (at_rest w) es ok room fits, final_explained (at_rest w) es ok room fits)
