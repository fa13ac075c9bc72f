-- ===== src/Scheduler/Minimise/Passes.antt =====
-- The two loops of `minimiseNumOfMigrations`, followed through `kept` and `moved`.
use mathlib.Core.List.{append_assoc}
use faabric.Prelude.{
  ℕ, suc, ◌+◌, ◌≡◌, ◌≢◌, refl, ap, ◌∙◌, inl, inr, true, false, List, [], ◌∷◌, ◌++◌, arith,
  if◌then◌else◌, length, replicate, String, same_name, same_name_iff, Bool-cases, length-append,
  length-replicate,
}
use faabric.Prelude.Int.{negsuc}
use faabric.Prelude.Results.{ok}
use faabric.Prelude.Counts.{count, count-append}
use faabric.Scheduler.Decision.{SchedulingDecision}
use faabric.Scheduler.Histogram.{Histogram, has_slot, take_slot, next_host_with_slots}
use faabric.Scheduler.Minimise.{place_at, keep_host, keep_hosts, move_host, move_hosts}
use faabric.Scheduler.Minimise.Spec.{
  kept, kept_left, after_keep, Moved, done, moves, stays, AllNamed,
}
use faabric.Scheduler.Minimise.Refine.{Reps, place_at-Reps, needs_host_lem}

module _ (old : SchedulingDecision) (n : ℕ) where
  keep_host-Reps :
      (p r : List String) (h : String) (d : SchedulingDecision) (m : Histogram)
      → h ≢ ""
      → n ≡ length p + suc (length r)
      → Reps old d n (p ++ "" ∷ r)
      → Reps old (keep_host old (length p) h (d, m)).0 n (p ++ (if has_slot h m then h else "") ∷ r)
        × ((keep_host old (length p) h (d, m)).1 ≡ after_keep h m)
  unfolding keep_host after_keep
  keep_host-Reps p r h d m named l s = elim (Bool-cases (has_slot h m)) [
    | inl e ↦ rw e (place_at-Reps old d n p r h _ named l s, refl)
    | inr e ↦ rw e (s, refl)
  ]

  step_length : (p : List String) (x : String) → length (p ++ x ∷ []) ≡ suc (length p)
  step_length p x = omega (arith, length-append p (x ∷ []))

  regroup :
      (p : List String) (x : String) (r : List String) (d : SchedulingDecision)
      → Reps old d n (p ++ x ∷ r)
      → Reps old d n ((p ++ x ∷ []) ++ r)
  regroup p x r d s = rw (append_assoc p (x ∷ []) r) s

  ungroup :
      (p : List String) (x : String) (r : List String) (d : SchedulingDecision)
      → Reps old d n ((p ++ x ∷ []) ++ r)
      → Reps old d n (p ++ x ∷ r)
  ungroup p x r d s = rw (append_assoc p (x ∷ []) r) at s

  -- The first loop, from the place after `p` on.
  pub keep_hosts-Reps :
      (p hs : List String) (d : SchedulingDecision) (m : Histogram) (i : ℕ)
      → i ≡ length p
      → AllNamed hs
      → n ≡ length p + length hs
      → Reps old d n (p ++ replicate (length hs) "")
      → Reps old (keep_hosts old i hs (d, m)).0 n (p ++ kept hs m)
        × ((keep_hosts old i hs (d, m)).1 ≡ kept_left hs m)
  unfolding keep_hosts kept kept_left
  keep_hosts-Reps p [] d m i e named l s = (s, refl)
  keep_hosts-Reps p (h ∷ hs) d m i e named l s =
      let step =
        keep_host-Reps p (replicate (length hs) "") h d m named.0
          (omega (arith, length-replicate {A = String} (length hs) "")) s in
      let x = (if has_slot h m then h else "") in
      let next = keep_host old i h (d, m) in
      let same_next = ap (λ k. keep_host old k h (d, m)) e in
      let rest =
        keep_hosts-Reps (p ++ x ∷ []) hs next.0 next.1 (suc i) (omega (arith, step_length p x))
          named.1 (omega (arith, step_length p x))
          (regroup p x (replicate (length hs) "") next.0 (rw same_next step.0)) in
      (
        ungroup p x (kept hs (after_keep h m)) (keep_hosts old (suc i) hs next).0
            (rw (← step.1, ← same_next) rest.0),
        rw (← step.1, ← same_next) rest.1,
      )

  move_host-stays :
      (p r : List String) (h : String) (d : SchedulingDecision) (m : Histogram)
      → same_name h "" ≡ false
      → count "" p ≡ 0
      → n ≡ length p + suc (length r)
      → Reps old d n (p ++ h ∷ r)
      → move_host old (length p) (d, m) ≡ ok (d, m)
  unfolding move_host
  move_host-stays p r h d m named full l s =
      rw (needs_host_lem old d n p r h l full s ∙ named, move_host) refl

  move_host-moves :
      (p r : List String) (h next : String) (d : SchedulingDecision) (m : Histogram)
      → same_name h "" ≡ true
      → next_host_with_slots m ≡ ok next
      → count "" p ≡ 0
      → n ≡ length p + suc (length r)
      → Reps old d n (p ++ h ∷ r)
      → move_host old (length p) (d, m)
        ≡ ok (place_at old (length p) next (negsuc 0) d, take_slot next m)
  unfolding move_host
  move_host-moves p r h next d m hole found full l s =
      rw (needs_host_lem old d n p r h l full s ∙ hole, move_host) (rw found refl)

  full_step : (p : List String) (x : String) → count "" p ≡ 0 → x ≢ "" → count "" (p ++ x ∷ []) ≡ 0
  unfolding count
  full_step p x full named = ground (arith, count-append "" p (x ∷ []), same_name_iff x "")

  move_hosts-cons :
      (i : ℕ) (g : String) (hs : List String) (st : SchedulingDecision × Histogram)
      {st' st'' : SchedulingDecision × Histogram}
      → move_host old i st ≡ ok st'
      → move_hosts old (suc i) hs st' ≡ ok st''
      → move_hosts old i (g ∷ hs) st ≡ ok st''
  unfolding move_hosts
  move_hosts-cons i g hs st first rest = rw first rest

  -- The second loop, from the place after `p` on.
  pub move_hosts-Reps :
      (p hs ks rs : List String) (d : SchedulingDecision) (m left : Histogram) (i : ℕ)
      → i ≡ length p
      → count "" p ≡ 0
      → length hs ≡ length ks
      → n ≡ length p + length ks
      → Moved ks m rs left
      → Reps old d n (p ++ ks)
      → (d' : SchedulingDecision) × (move_hosts old i hs (d, m) ≡ ok (d', left))
        × Reps old d' n (p ++ rs)
  unfolding move_hosts
  move_hosts-Reps p [] [] rs d m left i e full same l done s = (d, refl, s)
  move_hosts-Reps p [] (h ∷ ks) rs d m left i e full same l run s = absurd (omega arith)
  move_hosts-Reps p (g ∷ hs) [] rs d m left i e full same l run s = absurd (omega arith)
  move_hosts-Reps p (g ∷ hs) (h ∷ ks) [] d m left i e full same l run s = elim run [ ]
  move_hosts-Reps p (g ∷ hs) (h ∷ ks) (k ∷ rs) d m left i e full same l (moves hole found named run)
        s =
      let next = place_at old (length p) k (negsuc 0) d in
      let (d', r, s') =
        move_hosts-Reps (p ++ k ∷ []) hs ks rs next (take_slot k m) left (suc i)
          (omega (arith, step_length p k)) (full_step p k full named) (omega arith)
          (omega (arith, step_length p k)) run
          (regroup p k ks next (
            place_at-Reps old d n p ks k (negsuc 0) named l
              (rw ((same_name_iff h "").0 hole) at s))) in
      (
        d',
        move_hosts-cons i g hs (d, m)
            (ap (λ j. move_host old j (d, m)) e ∙ move_host-moves p ks h k d m hole found full l s)
            r,
        ungroup p k rs d' s',
      )
  move_hosts-Reps p (g ∷ hs) (h ∷ ks) (k ∷ rs) d m left i e full same l (stays named run) s =
      let (d', r, s') =
        move_hosts-Reps (p ++ h ∷ []) hs ks rs d m left (suc i) (omega (arith, step_length p h))
          (full_step p h full (λ q. cc ((same_name_iff h "").1 q))) (omega arith)
          (omega (arith, step_length p h)) run (regroup p h ks d s) in
      (
        d',
        move_hosts-cons i g hs (d, m)
            (ap (λ j. move_host old j (d, m)) e ∙ move_host-stays p ks h d m named full l s) r,
        ungroup p h rs d' s',
      )
