-- ===== src/Wsq/Shared/Steps.antt =====
-- Each step of the owner and of the thieves, against the deque.
use boost_task.Prelude.{
  ℕ, suc, ◌+◌, ◌-◌, ◌^◌, ◌<◌, ◌≤◌, ◌≡◌, refl, ap, sym, ◌∙◌, true, false, none, some, List, [], ◌∷◌,
  ◌++◌, ltb, leb, ◌==◌, if-cases, arith, get_or, set,
}
use boost_task.Wsq.{u32, Wsq, slot, has_room, insert, store}
use mathlib.Core.Path.{subst}
use boost_task.Wsq.Window.{window}
use boost_task.Wsq.Inv.{
  IsValid, contents, capacity_bounds, store-IsValid, contents-store, take_last, take_first,
}
use boost_task.Wsq.Deque
use boost_task.Wsq.Deque.{Op, take_back-append}
use boost_task.Wsq.Shared.{
  Shared, Owner, idle, looking, swapping, wanting, Thief, away, raised, grabbing, take_step,
  look_step, take_out, swap_step, relock_step, steal_step, check_step, grab_step, put_step,
}
use boost_task.Wsq.Shared.Inv.{
  Explains, front_of, back_of, claimed, OwnerOk, ThiefOk, settled, Ok, Moved, still, refused,
  one_more,
}

taken_back :
    {T : Type 0} (xs ys : List T) (out ca : T)
    → xs ≡ ys ++ (out ∷ [])
    → Explains xs (some (Op.take ca, some (true, out))) ys
unfolding Explains
taken_back xs ys out ca e = rw (e, take_back-append ys out ca) (refl, refl)

taken_front :
    {T : Type 0} (xs ys : List T) (out ca : T)
    → xs ≡ out ∷ ys
    → Explains xs (some (Op.steal true ca, some (true, out))) ys
unfolding Explains Deque.take_front
taken_front xs ys out ca e = rw e (refl, refl)

module _ {T S : Type 0} (vacant : T) where
  abbrev shared : Wsq T S → Owner T → Thief T → Shared T S
  shared w o th = record { ring = w; owner = o; thief = th }

  pub look-Moved :
      {k : ℕ} (w : Wsq T S) (o : Owner T) (th : Thief T)
      → Ok k w o th
      → Moved vacant k 0 w o th (look_step vacant (shared w o th) o)
  unfolding look_step
  look-Moved w idle th ok = still vacant w idle th ok
  look-Moved w (swapping t ca) th ok = still vacant w (swapping t ca) th ok
  look-Moved w (wanting t ca) th ok = still vacant w (wanting t ca) th ok
  look-Moved {k} w (looking t ca) th ok =
      if-cases (λ o. Moved vacant k 0 w (looking t ca) th (shared w o th, none)) (leb w.head_idx t)
        (λ near.
          unfold Explains in
          record {
            ok = record {
              valid = ok.valid;
              owner_ok = (ok.owner_ok, below th ok (ground (arith, near)));
              thief_ok = ok.thief_ok;
            };
            explained = refl;
            end = omega arith;
            count = omega arith;
          })
        (λ far.
          unfold Explains in
          record {
            ok = record { valid = ok.valid; owner_ok = ok.owner_ok; thief_ok = ok.thief_ok };
            explained = refl;
            end = omega arith;
            count = omega arith;
          })
    where
      below : (th : Thief T) → Ok k w (looking t ca) th → w.head_idx ≤ t → claimed w.head_idx th ≤ t
      below away ok near = near
      below (raised h ca') ok near = omega (arith, near, ok.thief_ok)
      below (grabbing h ca') ok near = omega (arith, near, ok.thief_ok)

  pub take-Moved :
      {k : ℕ} (w : Wsq T S) (o : Owner T) (th : Thief T) (ca : T)
      → Ok k w o th
      → Moved vacant k 0 w o th (take_step vacant (shared w o th) o ca)
  unfolding take_step
  take-Moved w (looking t ca') th ca ok = still vacant w (looking t ca') th ok
  take-Moved w (swapping t ca') th ca ok = still vacant w (swapping t ca') th ok
  take-Moved w (wanting t ca') th ca ok = still vacant w (wanting t ca') th ok
  take-Moved {k} w idle th ca ok =
      if-cases (Moved vacant k 0 w idle th) (w.tail_idx == 0)
        (λ none_left.
          let e : contents vacant (settled w idle th) ≡ [] = nothing (ground (arith, none_left)) in
          unfold Explains Deque.take_back in
          record {
            ok = ok;
            explained =
                subst (λ xs. Explains xs (some (Op.take ca, some (false, ca))) xs) (sym e)
                  (refl, refl);
            end = omega arith;
            count = omega arith;
          })
        (λ more.
          let e : w.tail_idx ≡ suc (w.tail_idx - 1) = ground (arith, more) in
          unfold Explains in
          record {
            ok = record {
              valid =
                  subst
                    (λ b. IsValid k (record w { head_idx = front_of w.head_idx th; tail_idx = b }))
                    e ok.valid;
              owner_ok = refl;
              thief_ok = subst (ThiefOk w.head_idx th) e ok.thief_ok;
            };
            explained =
                ap
                  (λ b.
                    contents vacant (record w { head_idx = front_of w.head_idx th; tail_idx = b }))
                  e;
            end = omega (arith, e);
            count = omega (arith, e);
          })
    where
      nothing : w.tail_idx ≡ 0 → contents vacant (settled w idle th) ≡ []
      nothing e =
          ap (window vacant w.mask w.array (front_of w.head_idx th))
            (let n : w.tail_idx - front_of w.head_idx th ≡ 0 = omega (arith, e) in n)

  -- The owner swaps at `t`, with the lock or without.
  take_out-Moved :
      {k : ℕ} (w : Wsq T S) (o : Owner T) (th : Thief T) (t : ℕ) (ca : T)
      → Ok k w o th
      → w.tail_idx ≡ t
      → back_of w.tail_idx o ≡ suc t
      → claimed w.head_idx th ≤ t
      → Moved vacant k 0 w o th (take_out vacant (shared w o th) t ca)
  unfolding take_out Explains
  take_out-Moved {k} w o th t ca ok at back near =
      let (held, valid) =
        take_last vacant t ca ok.valid back (omega (arith, near, front-claimed th)) in
      record {
        ok = record {
          valid =
              subst
                (λ b. IsValid k (record w {
                  head_idx = front_of w.head_idx th;
                  tail_idx = b;
                  array = set w.array (slot w t) ca;
                }))
                (sym at) valid;
          owner_ok = tt;
          thief_ok = kept th (back_of w.tail_idx o) ok.thief_ok near;
        };
        explained = taken_back _ _ _ ca (
            held
            ∙ ap
                (λ b.
                  contents vacant (record w {
                    head_idx = front_of w.head_idx th;
                    tail_idx = b;
                    array = set w.array (slot w t) ca;
                  })
                  ++ (get_or w.array (slot w t) vacant ∷ []))
                (sym at));
        end = omega (arith, at, back);
        count = omega (arith, at, back);
      }
    where
      front-claimed : (th : Thief T) → front_of w.head_idx th ≤ claimed w.head_idx th
      front-claimed away = omega arith
      front-claimed (raised h ca') = omega arith
      front-claimed (grabbing h ca') = omega arith

      kept :
          (th : Thief T) (b : ℕ)
          → ThiefOk w.head_idx th b
          → claimed w.head_idx th ≤ t
          → ThiefOk w.head_idx th w.tail_idx
      kept away b ok near = tt
      kept (raised h ca') b ok near = ok
      kept (grabbing h ca') b ok near = (ok.0, omega (arith, near, at))

  pub swap-Moved :
      {k : ℕ} (w : Wsq T S) (o : Owner T) (th : Thief T)
      → Ok k w o th
      → Moved vacant k 0 w o th (swap_step vacant (shared w o th) o)
  unfolding swap_step
  swap-Moved w idle th ok = still vacant w idle th ok
  swap-Moved w (looking t ca) th ok = still vacant w (looking t ca) th ok
  swap-Moved w (wanting t ca) th ok = still vacant w (wanting t ca) th ok
  swap-Moved w (swapping t ca) th ok =
      let (at, near) = ok.owner_ok in take_out-Moved w (swapping t ca) th t ca ok at refl near

  pub relock-Moved :
      {k : ℕ} (w : Wsq T S) (o : Owner T) (th : Thief T)
      → Ok k w o th
      → Moved vacant k 0 w o th (relock_step vacant (shared w o th) o th)
  unfolding relock_step
  relock-Moved w idle th ok = still vacant w idle th ok
  relock-Moved w (looking t ca) th ok = still vacant w (looking t ca) th ok
  relock-Moved w (swapping t ca) th ok = still vacant w (swapping t ca) th ok
  relock-Moved w (wanting t ca) (raised h ca') ok = still vacant w (wanting t ca) (raised h ca') ok
  relock-Moved w (wanting t ca) (grabbing h ca') ok =
      still vacant w (wanting t ca) (grabbing h ca') ok
  relock-Moved {k} w (wanting t ca) away ok =
      if-cases (Moved vacant k 0 w (wanting t ca) away) (leb w.head_idx t)
        (λ near.
          take_out-Moved w (wanting t ca) away t ca ok ok.owner_ok refl (ground (arith, near)))
        (λ far.
          let v = ok.valid in
          let e : suc t ≡ u32 (t + 1) = omega (arith, v.no_wrap) in
          let none_left : suc t - w.head_idx ≡ 0 = ground (arith, far) in
          let at_end = λ (b : ℕ). record w { tail_idx = b } in
          unfold Explains Deque.take_back in
          record {
            ok = record {
              valid = subst (λ b. IsValid k (at_end b)) e v;
              owner_ok = tt;
              thief_ok = tt;
            };
            explained =
                subst
                  (λ b.
                    Explains (contents vacant (at_end (suc t)))
                      (some (Op.take ca, some (false, ca))) (contents vacant (at_end b)))
                  e
                  (subst
                    (λ n.
                      Explains (window vacant w.mask w.array w.head_idx n)
                        (some (Op.take ca, some (false, ca)))
                        (window vacant w.mask w.array w.head_idx n))
                    (sym none_left) (refl, refl));
            end = omega (arith, e);
            count = omega (arith, e);
          })

  pub steal-Moved :
      {k : ℕ} (w : Wsq T S) (o : Owner T) (th : Thief T) (ca : T)
      → Ok k w o th
      → Moved vacant k 0 w o th (steal_step vacant (shared w o th) th ca)
  unfolding steal_step
  steal-Moved w o (raised h ca') ca ok = refused vacant w o (raised h ca') ca ok
  steal-Moved w o (grabbing h ca') ca ok = refused vacant w o (grabbing h ca') ca ok
  steal-Moved w o away ca ok =
      unfold Explains in
      record {
        ok = record {
          valid = ok.valid;
          owner_ok = ok.owner_ok;
          thief_ok = omega (arith, (ok.valid).no_wrap, (ok.valid).ordered);
        };
        explained = refl;
        end = omega arith;
        count = omega arith;
      }

  pub check-Moved :
      {k : ℕ} (w : Wsq T S) (o : Owner T) (th : Thief T)
      → Ok k w o th
      → Moved vacant k 0 w o th (check_step vacant (shared w o th) th)
  unfolding check_step
  check-Moved w o away ok = still vacant w o away ok
  check-Moved w o (grabbing h ca) ok = still vacant w o (grabbing h ca) ok
  check-Moved {k} w o (raised h ca) ok =
      if-cases (Moved vacant k 0 w o (raised h ca)) (ltb h w.tail_idx)
        (λ more.
          unfold Explains in
          record {
            ok = record {
              valid = ok.valid;
              owner_ok = claim o ok.owner_ok (ground (arith, more));
              thief_ok = (ok.thief_ok, below o ok.owner_ok (ground (arith, more)));
            };
            explained = refl;
            end = omega arith;
            count = omega arith;
          })
        (λ empty.
          unfold Explains Deque.take_front in
          record {
            ok = record { valid = ok.valid; owner_ok = ok.owner_ok; thief_ok = tt };
            explained = (refl, refl);
            end = omega arith;
            count = omega arith;
          })
    where
      claim : (o : Owner T) → OwnerOk w.tail_idx o h → h < w.tail_idx → OwnerOk w.tail_idx o (suc h)
      claim idle ok more = tt
      claim (looking t ca') ok more = ok
      claim (swapping t ca') ok more = (ok.0, omega (arith, more, ok.0))
      claim (wanting t ca') ok more = ok

      below : (o : Owner T) → OwnerOk w.tail_idx o h → h < w.tail_idx → h < back_of w.tail_idx o
      below idle ok more = more
      below (looking t ca') ok more = omega (arith, more, ok)
      below (swapping t ca') ok more = omega (arith, more, ok.0)
      below (wanting t ca') ok more = omega (arith, more, ok)

  pub grab-Moved :
      {k : ℕ} (w : Wsq T S) (o : Owner T) (th : Thief T)
      → Ok k w o th
      → Moved vacant k 0 w o th (grab_step vacant (shared w o th) th)
  unfolding grab_step
  grab-Moved w o away ok = still vacant w o away ok
  grab-Moved w o (raised h ca) ok = still vacant w o (raised h ca) ok
  grab-Moved {k} w o (grabbing h ca) ok =
      let (at, more) = ok.thief_ok in
      let (held, valid) = take_first vacant h ca ok.valid refl more in
      let left = λ (b : ℕ). record w {
        head_idx = b;
        tail_idx = back_of w.tail_idx o;
        array = set w.array (slot w h) ca;
      } in
      record {
        ok = record {
          valid = subst (λ b. IsValid k (left b)) (sym at) valid;
          owner_ok = subst (OwnerOk w.tail_idx o) (sym at) ok.owner_ok;
          thief_ok = tt;
        };
        explained =
            taken_front _ _ _ ca (
              held
              ∙ ap (λ b. get_or w.array (slot w h) vacant ∷ contents vacant (left b)) (sym at));
        end = omega arith;
        count = omega (arith, at);
      }

  -- What a thief under way leaves of the test for room.
  put_room :
      {k : ℕ} (w : Wsq T S) (th : Thief T)
      → Ok k w idle th
      → w.tail_idx < front_of w.head_idx th + 2 ^ k
      → has_room w ≡ true
  unfolding has_room
  put_room {k} w th ok room =
      let v = ok.valid in
      let (low, high) = capacity_bounds k v.large v.small in
      ground (arith, v.mask_pow, v.no_wrap, v.ordered, ahead th ok.thief_ok, low, high)
    where
      ahead :
          (th : Thief T)
          → ThiefOk w.head_idx th w.tail_idx
          → (front_of w.head_idx th ≤ w.head_idx) × (w.head_idx ≤ front_of w.head_idx th + 1)
      ahead away ok = omega arith
      ahead (raised h ca) ok = omega (arith, ok)
      ahead (grabbing h ca) ok = omega (arith, ok.0)

  pub put-Moved :
      {k : ℕ} (w : Wsq T S) (o : Owner T) (th : Thief T) (ca : T)
      → Ok k w o th
      → back_of w.tail_idx o < front_of w.head_idx th + 2 ^ k
      → back_of w.tail_idx o + 1 < 2 ^ 31
      → Moved vacant k 1 w o th (put_step vacant (shared w o th) o ca)
  unfolding put_step insert store
  put-Moved w (looking t ca') th ca ok room fits =
      one_more vacant (still vacant w (looking t ca') th ok)
  put-Moved w (swapping t ca') th ca ok room fits =
      one_more vacant (still vacant w (swapping t ca') th ok)
  put-Moved w (wanting t ca') th ca ok room fits =
      one_more vacant (still vacant w (wanting t ca') th ok)
  put-Moved {k} w idle th ca ok room fits =
      let free = put_room w th ok room in
      let n : w.tail_idx + 1 ≡ u32 (w.tail_idx + 1) = omega arith in
      rw free (
        unfold Explains in
        record {
          ok = record {
            valid = store-IsValid vacant ca ok.valid room fits;
            owner_ok = tt;
            thief_ok = later th ok.thief_ok;
          };
          explained = (refl, contents-store vacant ca ok.valid room fits);
          end = omega (arith, n);
          count = omega (arith, n);
        })
    where
      later :
          (th : Thief T)
          → ThiefOk w.head_idx th w.tail_idx
          → ThiefOk w.head_idx th (u32 (w.tail_idx + 1))
      later away ok = tt
      later (raised h ca') ok = ok
      later (grabbing h ca') ok = (ok.0, omega (arith, ok.1, fits))
