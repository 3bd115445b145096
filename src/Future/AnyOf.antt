-- ===== src/Future/AnyOf.antt =====
-- What `wait_for_any` answers, against a description of it by the arguments.
use boost_task.Prelude.{
  ℕ, zero, suc, ◌+◌, ◌<◌, ◌≡◌, ◌⊎◌, if◌then◌else◌, Bool, true≢false, inl, inr, refl, ap, sym, ◌∙◌,
  true, false, Option, none, some, List, [], ◌∷◌, ◌++◌, Bool-cases, arith,
}
use mathlib.Core.Path.{subst}
use mathlib.Core.List.{append-nil, append_assoc}
use boost_task.Future.{World, do_callback}
use boost_task.Future.Handle.{Handle}
use boost_task.Future.Waiter.{
  Waiter, Wake, returns, asleep, spins, lock_all, empty, first_done, scan_loop, wait, wait_end, add,
  add_all, wait_for_any,
}
use boost_task.Future.Locks.{nth, registered, SharesState, AllDistinct, Locked, lock_all-Locked}

module _ {R E C F : Type 0} where
  -- No argument before the position `i` refers to a state that is done.
  pub NoneBefore : World R E C F → List Handle → ℕ → Type 0
  NoneBefore w hs i = (j a : ℕ) → j < i → nth hs j ≡ some (some a) → (w.objects a).done ≡ false

  pub NoneDone : World R E C F → List Handle → Type 0
  NoneDone w hs = (j a : ℕ) → nth hs j ≡ some (some a) → (w.objects a).done ≡ false

  -- The argument at the position `i` is the first whose state is done.
  pub record First (w : World R E C F) (hs : List Handle) (i : ℕ) : Type 0 where
    pub address : ℕ
    pub at : nth hs i ≡ some (some address)
    pub done : (w.objects address).done ≡ true
    pub before : NoneBefore w hs i

  -- The scan's answer for arguments whose first has the index `n`.
  Scan : World R E C F → List Handle → ℕ → Option ℕ → Type 0
  Scan w hs n none = NoneDone w hs
  Scan w hs n (some k) = (i : ℕ) × (k ≡ n + i) × First w hs i

  NoneDone-skip :
      (w : World R E C F) (h : Handle) (hs : List Handle)
      → ((a : ℕ) → h ≡ some a → (w.objects a).done ≡ false)
      → NoneDone w hs
      → NoneDone w (h ∷ hs)
  unfolding NoneDone
  NoneDone-skip w h hs still s zero a at = still a (cc at)
  NoneDone-skip w h hs still s (suc j) a at = s j a at

  Scan-skip :
      (w : World R E C F) (h : Handle) (hs : List Handle) (n : ℕ) (o : Option ℕ)
      → ((a : ℕ) → h ≡ some a → (w.objects a).done ≡ false)
      → Scan w hs (n + 1) o
      → Scan w (h ∷ hs) n o
  unfolding Scan NoneBefore
  Scan-skip w h hs n none still s = NoneDone-skip w h hs still s
  Scan-skip w h hs n (some k) still (i, same, first) =
      let shifted : First w (h ∷ hs) (suc i) = record {
        address = first.address;
        at = first.at;
        done = first.done;
        before = before_from;
      } in
      (suc i, omega (arith, same), shifted)
    where
      before_from : NoneBefore w (h ∷ hs) (suc i)
      before_from zero a lt at = still a (cc at)
      before_from (suc j) a lt at = first.before j a (omega (arith, lt)) at

  first_done-Scan :
      (w : World R E C F) (hs : List Handle) (n : ℕ) → Scan w hs n (first_done w (registered hs n))
  unfolding first_done registered Scan NoneDone NoneBefore
  first_done-Scan w [] n = λ j a at. absurd (cc at)
  first_done-Scan w (none ∷ hs) n =
      Scan-skip w none hs n _ (λ a at. absurd (cc at)) (first_done-Scan w hs (n + 1))
  first_done-Scan w (some a ∷ hs) n = elim (Bool-cases (w.objects a).done) [
    | inl d ↦ rw d (
      0,
      omega arith,
      record { address = a; at = refl; done = d; before = λ j b lt at. absurd (omega (arith, lt)) },
    )
    | inr waiting ↦ rw waiting (
        Scan-skip w (some a) hs n _
          (λ b at. ap (λ (c : ℕ). (w.objects c).done) (let same : b ≡ a = cc at in same) ∙ waiting)
          (first_done-Scan w hs (n + 1)))
  ]

  -- How the loop ends over the worlds it is woken in: the first world with a state that is done decides.
  pub data Answers (hs : List Handle) : World R E C F → List (World R E C F) → Wake → Type 0 where
    found :
        (w : World R E C F) (later : List (World R E C F)) (i : ℕ)
        → First w hs i
        → Answers hs w later (returns i)
    sleeps : (w : World R E C F) → NoneDone w hs → Answers hs w [] asleep
    woken :
        (w w' : World R E C F) (later : List (World R E C F)) (o : Wake)
        → NoneDone w hs
        → Answers hs w' later o
        → Answers hs w (w' ∷ later) o

  wait_end-found :
      (w : World R E C F) (hs : List Handle) (later : List (World R E C F)) (o : Option ℕ)
      (r : Wake)
      → Scan w hs 0 o
      → (NoneDone w hs → Answers hs w later r)
      → Answers hs w later (wait_end o r)
  unfolding wait_end Scan
  wait_end-found w hs later none r s more = more s
  wait_end-found w hs later (some k) r (i, same, first) more =
      found w later k (subst (First w hs) (omega (arith, same)) first)

  scan_loop-Answers :
      (w : World R E C F) (hs : List Handle) (later : List (World R E C F))
      → Answers hs w later (scan_loop w (registered hs 0) later)
  unfolding scan_loop
  scan_loop-Answers w hs [] =
      wait_end-found w hs [] (first_done w (registered hs 0)) asleep (first_done-Scan w hs 0)
        (λ s. sleeps w s)
  scan_loop-Answers w hs (w' ∷ later) =
      wait_end-found w hs (w' ∷ later) (first_done w (registered hs 0))
        (scan_loop w' (registered hs 0) later) (first_done-Scan w hs 0)
        (λ s. woken w w' later _ s (scan_loop-Answers w' hs later))

  -- What a wait for the arguments comes to.
  abbrev pub Waited : List Handle → World R E C F → List (World R E C F) → Wake → Type 0
  Waited hs w later r = (SharesState hs × (r ≡ spins)) ⊎ (AllDistinct hs × Answers hs w later r)

  wait-Waited :
      (w : World R E C F) (hs : List Handle) (later : List (World R E C F))
      → Waited hs w later (wait w (registered hs 0) later)
  unfolding wait Locked
  wait-Waited w hs later = end (lock_all (registered hs 0) []) (lock_all-Locked hs 0 [])
    where
      end :
          (b : Bool)
          → Locked hs [] b
          → Waited hs w later (if b then scan_loop w (registered hs 0) later else spins)
      end true (free, distinct) = inr (distinct, scan_loop-Answers w hs later)
      end false (inl (j, a, at, taken)) = absurd (true≢false (sym taken))
      end false (inr shares) = inl (shares, refl)

module _ {R E C F : Type 0} (invoke : C → World R E C F → World R E C F) where
  add_all-registered :
      (w : World R E C F) (waiter : Waiter) (hs : List Handle)
      → (add_all invoke w waiter hs).1.futures ≡ waiter.futures ++ registered hs waiter.future_count
  unfolding add_all add registered
  add_all-registered w waiter [] = sym (append-nil waiter.futures)
  add_all-registered w waiter (none ∷ hs) =
      add_all-registered w (record waiter { future_count = waiter.future_count + 1 }) hs
  add_all-registered w waiter (some a ∷ hs) =
      let entry : List (ℕ × ℕ) = (a, waiter.future_count) ∷ [] in
      let n = waiter.future_count + 1 in
      add_all-registered (do_callback invoke w a)
        (record { futures = waiter.futures ++ entry; future_count = n }) hs
      ∙ append_assoc waiter.futures entry (registered hs n)

  -- `wait_for_any` on any arguments, null futures among them, in any worlds it is woken in. Where two arguments
  -- refer to one state, it spins for a mutex that it holds. Where no two do: in the first of these
  -- worlds, after the callbacks have run, in which the state of some argument is done, it answers the
  -- position of the first such argument; if there is no such world it stays asleep.
  pub wait_for_any_lem :
      (w : World R E C F) (hs : List Handle) (later : List (World R E C F))
      → (SharesState hs × (wait_for_any invoke w hs later ≡ spins))
        ⊎ (AllDistinct hs
            × Answers hs (add_all invoke w empty hs).0 later (wait_for_any invoke w hs later))
  unfolding wait_for_any
  wait_for_any_lem w hs later =
      let start = (add_all invoke w empty hs).0 in
      subst (λ futures. Waited hs start later (wait start futures later))
        (sym (add_all-registered w empty hs)) (wait-Waited start hs later)
