-- ===== src/Future/Waiter.antt =====
-- include/boost/task/spin/future.hpp: `future_waiter`, `wait_for_any` and `wait_for_all`.
use boost_task.Prelude.{
  ℕ, ◌+◌, ◌==◌, ◌||◌, Bool, true, false, Option, none, some, List, [], ◌∷◌, ◌++◌, if◌then◌else◌,
}
use boost_task.Future.{World, Result, ok, throws, blocks, fault, do_callback}
use boost_task.Future.Handle
use boost_task.Future.Handle.{Handle}

-- The registered states with their indices; a null future takes an index and is not registered.
pub record Waiter : Type 0 where
  pub futures : List (ℕ × ℕ)
  pub future_count : ℕ

abbrev pub empty : Waiter
empty = record { futures = []; future_count = 0 }

-- What a wait comes to: it returns an index, sleeps in the condition, or spins for a mutex of its own.
pub data Wake : Type 0 where
  returns : ℕ → Wake
  asleep : Wake
  spins : Wake

unfoldable pub wait_end : Option ℕ → Wake → Wake
wait_end none later = later
wait_end (some index) later = returns index

abbrev pub mem : ℕ → List ℕ → Bool
mem a [] = false
mem a (b ∷ bs) = a == b || mem a bs

-- The constructor of `all_futures_lock` locks the mutex of each registered state in turn, with those in hand:
-- whether it comes to its end. A mutex in hand is never free again; one that another thread holds is
-- taken to be released.
unfoldable pub lock_all : List (ℕ × ℕ) → List ℕ → Bool
lock_all [] held = true
lock_all ((a, index) ∷ futures) held =
    let rest = lock_all futures (a ∷ held) in if mem a held then false else rest

module _ {R E C F : Type 0} where
  -- One pass of the loop of `future_waiter::wait`.
  unfoldable pub first_done : World R E C F → List (ℕ × ℕ) → Option ℕ
  first_done w [] = none
  first_done w ((a, index) ∷ futures) =
      if (w.objects a).done then some index else first_done w futures

  -- The loop, with the worlds in which it is woken.
  unfoldable pub scan_loop : World R E C F → List (ℕ × ℕ) → List (World R E C F) → Wake
  scan_loop w futures [] = wait_end (first_done w futures) asleep
  scan_loop w futures (w' ∷ later) =
      let rest = scan_loop w' futures later in wait_end (first_done w futures) rest

  unfoldable pub wait : World R E C F → List (ℕ × ℕ) → List (World R E C F) → Wake
  unfolding lock_all scan_loop
  wait w futures later = if lock_all futures [] then scan_loop w futures later else spins

module _ {R E C F : Type 0} (invoke : C → World R E C F → World R E C F) where
  -- `register_external_waiter` runs the callback of a state that is not done.
  unfoldable pub add : World R E C F → Waiter → Handle → World R E C F × Waiter
  unfolding do_callback
  add w waiter none = (w, record waiter { future_count = waiter.future_count + 1 })
  add w waiter (some a) = (
    do_callback invoke w a,
    record {
      futures = waiter.futures ++ ((a, waiter.future_count) ∷ []);
      future_count = waiter.future_count + 1;
    },
  )

  unfoldable pub add_all : World R E C F → Waiter → List Handle → World R E C F × Waiter
  add_all w waiter [] = (w, waiter)
  add_all w waiter (h ∷ hs) = let (w', waiter') = add w waiter h in add_all w' waiter' hs

  unfoldable pub wait_for_any : World R E C F → List Handle → List (World R E C F) → Wake
  wait_for_any w hs later = let (w', waiter) = add_all w empty hs in wait w' waiter.futures later

  all_end :
      Result E (World R E C F)
      → (World R E C F → Result E (World R E C F))
      → Result E (World R E C F)
  all_end (ok w) k = k w
  all_end (throws e) k = throws e
  all_end blocks k = blocks
  all_end fault k = fault

  -- With each future the worlds in which its wait is woken.
  unfoldable pub wait_for_all :
      List (Handle × List (World R E C F)) → World R E C F → Result E (World R E C F)
  unfolding all_end
  wait_for_all [] w = ok w
  wait_for_all ((h, later) ∷ hs) w = all_end (Handle.wait invoke w h later) (wait_for_all hs)
