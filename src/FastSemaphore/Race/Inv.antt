-- ===== src/FastSemaphore/Race/Inv.antt =====
-- The accounts of a fast semaphore among threads: who is waiting, what the kernel holds, and what is due.
use boost_task.Prelude.{
  ℕ, suc, ◌+◌, ◌-◌, ◌^◌, ◌<◌, ◌≤◌, ◌≡◌, refl, ◌⊎◌, true, false, List, [], ◌∷◌, arith,
}
use boost_task.Prelude.Int.{ℤ, pos, negsuc, pos_part, neg_part}
use boost_task.Semaphore.{Sysv}
use boost_task.FastSemaphore.Race.{Shared, total, lowered, raised, share}

-- Each number in the list is from 0 to `b`, and with `held` covers the `inside` threads.
unfoldable pub Covering : ℕ → ℕ → ℕ → List ℤ → Type 0
Covering b inside held [] = Unit {0}
Covering b inside held (x ∷ xs) =
    ((x ≡ pos (pos_part x)) × (pos_part x ≤ b) × (inside ≤ pos_part x + held))
    × Covering b inside held xs

pub Covering-more :
    {b b' : ℕ} (inside held inside' held' : ℕ) (xs : List ℤ)
    → b ≤ b'
    → inside' + held ≤ inside + held'
    → Covering b inside held xs
    → Covering b' inside' held' xs
unfolding Covering
Covering-more inside held inside' held' [] l m c = tt
Covering-more inside held inside' held' (x ∷ xs) l m ((e, small, enough), rest) =
    ((e, omega arith, omega arith), Covering-more inside held inside' held' xs l m rest)

pub Covering-none : (b inside held : ℕ) → Covering b inside held []
unfolding Covering
Covering-none b inside held = tt

-- `n` is the count at the start, and `b` bounds the counter on both sides of 0.
pub record Balanced (os : Sysv) (n b : ℕ) (s : Shared os) : Type 0 where
  pub range : pos_part s.fsem.sem_count + neg_part s.fsem.sem_count ≤ b
  pub woken :
      neg_part s.fsem.sem_count + total s.posting + os.value s.fsem.sem
      ≡ s.deciding + s.inside + s.early + n + s.at_zero
  pub gone :
      s.returned + pos_part s.fsem.sem_count + total s.posting + os.value s.fsem.sem
      ≡ s.posted + n + n + s.early + s.at_zero
  pub calls : s.deciding + s.inside + s.early + n + s.at_zero ≤ b
  pub flag : (s.fsem.sem_active ≡ false) ⊎ ((s.loaded ≡ []) × (s.stopped ≡ false))
  pub waiting : Covering b s.inside (total s.posting + os.value s.fsem.sem) s.loaded
  pub covered : s.stopped ≡ true → s.inside ≤ total s.posting + os.value s.fsem.sem

pub lowered-suc : (m : ℕ) → suc m < 2 ^ 31 → lowered (pos (suc m)) ≡ pos m
unfolding lowered
lowered-suc m l = ground arith

pub lowered-zero : lowered (pos 0) ≡ negsuc 0
unfolding lowered
lowered-zero = refl

pub lowered-negsuc : (w : ℕ) → suc w < 2 ^ 31 → lowered (negsuc w) ≡ negsuc (suc w)
unfolding lowered
lowered-negsuc w l = ground arith

pub raised-pos : (c x : ℕ) → c + x < 2 ^ 31 → raised (pos c) (pos x) ≡ pos (c + x)
unfolding raised
raised-pos c x l = ground arith

-- From below 0 the counter comes up to 0 and past it.
pub raised-negsuc :
    (w x : ℕ)
    → suc w + x < 2 ^ 31
    → (pos_part (raised (negsuc w) (pos x)) ≡ x - suc w)
      × (neg_part (raised (negsuc w) (pos x)) ≡ suc w - x)
unfolding raised
raised-negsuc w x l = (ground arith, ground arith)

-- The kernel is handed what brings the counter up to 0 at most.
pub share-negsuc :
    (w x : ℕ) → suc w < 2 ^ 31 → pos_part (share (negsuc w) (pos x)) ≡ x - (x - suc w)
unfolding share
share-negsuc w x l = ground arith
