-- ===== src/JobStatus/Latest.antt =====
-- LastFinished of internal/jobstatus/jobstatus.go.
use mathlib.Core.Path.{subst}
use mathlib.Core.List.{Memᴰ}
use karkive.Prelude.{
  ◌≤◌, String, ◌≡◌, refl, ◌↔◌, ◌⊎◌, inl, inr, true, Option, none, some, List, [], ◌∷◌, All, arith,
  Option-cases, Bool-cases, ltb, ap, All-mem,
}
use karkive.Kube.Meta.{Time}
use karkive.Kube.Objects.{Job}
use karkive.JobStatus.{finished_at, belongs, newer, consider, last_finished_from, last_finished}

some-eq {ℓ} : {A : Type ℓ} {a b : A} → some a ≡ some b → a ≡ b
some-eq e = cc e

module _ (namespace name_label name kind : String) where
  -- A Job of the CR that finished at the given time.
  abbrev pub FinishedJob : Job → Time → Type 0
  FinishedJob job end =
      (belongs namespace name_label name kind job ≡ true) × (finished_at job ≡ some end)

  -- The Job is another's, or has not finished, or finished no later.
  abbrev pub NotAfter : Time → Job → Type 0
  NotAfter best_at job = (end : Time) → FinishedJob job end → end ≤ best_at

  abbrev loop : Option (Job × Time) → List Job → Option (Job × Time)
  loop best jobs = last_finished_from namespace name_label name kind best jobs

  abbrev round : Option (Job × Time) → Job → Option (Job × Time)
  round best job = consider namespace name_label name kind best job

  newer_keeps :
      (b : Job × Time) (job : Job) (end : Time)
      → (r : Job × Time) × (newer (some b) job end ≡ some r) × (b.1 ≤ r.1) × (end ≤ r.1)
  unfolding newer
  newer_keeps b job end = elim (Bool-cases (ltb b.1 end)) [
    | inl h ↦ ((job, end), rw h, ground arith, omega arith)
    | inr h ↦ (b, rw h, omega arith, ground arith)
  ]

  newer_origin :
      (best : Option (Job × Time)) (job : Job) (end : Time) (r : Job × Time)
      → newer best job end ≡ some r
      → (best ≡ some r) ⊎ ((job, end) ≡ r)
  unfolding newer
  newer_origin none job end r e = ground arith
  newer_origin (some b) job end r e = ground arith

  round_keeps :
      (b : Job × Time) (job : Job) → (r : Job × Time) × (round (some b) job ≡ some r) × (b.1 ≤ r.1)
  unfolding consider
  round_keeps b job = elim (Bool-cases (belongs namespace name_label name kind job)) [
    | inr h ↦ (b, rw h, omega arith)
    | inl h ↦ elim (Option-cases (finished_at job)) [
      | inl n ↦ (b, rw (h, n), omega arith)
      | inr (end, f) ↦ let (r, e, le, _) = newer_keeps b job end in (r, rw (h, f) e, le)
    ]
  ]

  round_covers :
      (best : Option (Job × Time)) (job : Job) (end : Time)
      → FinishedJob job end
      → (r : Job × Time) × (round best job ≡ some r) × (end ≤ r.1)
  unfolding consider newer
  round_covers none job end (h, f) = ((job, end), rw (h, f), omega arith)
  round_covers (some b) job end (h, f) =
      let (r, e, _, le) = newer_keeps b job end in (r, rw (h, f) e, le)

  round_origin :
      (best : Option (Job × Time)) (job : Job) (r : Job × Time)
      → round best job ≡ some r
      → (best ≡ some r) ⊎ ((r.0 ≡ job) × FinishedJob r.0 r.1)
  unfolding consider
  round_origin best job r e = elim (Bool-cases (belongs namespace name_label name kind job)) [
    | inr h ↦ inl (rw (h, consider) at e)
    | inl h ↦ elim (Option-cases (finished_at job)) [
      | inl n ↦ inl (rw (h, n, consider) at e)
      | inr (end, f) ↦ elim (newer_origin best job end r (rw (h, f, consider) at e)) [
        | inl old ↦ inl old
        | inr new ↦ inr (rw (← new) (refl, (h, f)))
      ]
    ]
  ]

  -- The time of the best Job never falls.
  loop_keeps :
      (jobs : List Job) (b : Job × Time)
      → (r : Job × Time) × (loop (some b) jobs ≡ some r) × (b.1 ≤ r.1)
  unfolding last_finished_from
  loop_keeps [] b = (b, refl, omega arith)
  loop_keeps (job ∷ jobs) b =
      let (c, e, le) = round_keeps b job in
      let (r, e', le') = loop_keeps jobs c in (r, rw e e', omega arith)

  loop_covers :
      (jobs : List Job) (best : Option (Job × Time)) (r : Job × Time)
      → loop best jobs ≡ some r
      → All (NotAfter r.1) jobs
  unfolding last_finished_from
  loop_covers [] best r e = tt
  loop_covers (job ∷ jobs) best r e = (
    λ end f.
        let (c, e', le) = round_covers best job end f in
        let (r', e'', le') = loop_keeps jobs c in
        let same : r' ≡ r = cc (e, e', e'') in
        let times : r'.1 ≡ r.1 = ap (λ (p : Job × Time). p.1) same in omega arith,
    loop_covers jobs _ r e,
  )

  loop_origin :
      (jobs : List Job) (best : Option (Job × Time)) (r : Job × Time)
      → loop best jobs ≡ some r
      → (best ≡ some r) ⊎ (Memᴰ r.0 jobs × FinishedJob r.0 r.1)
  unfolding last_finished_from
  loop_origin [] best r e = inl e
  loop_origin (job ∷ jobs) best r e = elim (loop_origin jobs (round best job) r e) [
    | inr (m, f) ↦ inr (Memᴰ.tail m, f)
    | inl from ↦ elim (round_origin best job r from) [
      | inl old ↦ inl old
      | inr (same, f) ↦ inr (Memᴰ.head same, f)
    ]
  ]

  last_finished-IsLatest_from :
      (jobs : List Job) (job : Job) (r : Job × Time)
      → loop none jobs ≡ some r
      → r.0 ≡ job
      → (end : Time) × Memᴰ job jobs × FinishedJob job end × All (NotAfter end) jobs
  last_finished-IsLatest_from jobs job r found same = elim (loop_origin jobs none r found) [
    | inl none_r ↦ absurd (cc none_r)
    | inr (m, f) ↦ (
      r.1,
      subst (λ j. Memᴰ j jobs) same m,
      subst (λ j. FinishedJob j r.1) same f,
      loop_covers jobs none r found,
    )
  ]

  loop-eq-none :
      (jobs : List Job)
      → loop none jobs ≡ none
      → All (λ job. (end : Time) → ¬ FinishedJob job end) jobs
  unfolding last_finished_from
  loop-eq-none [] e = tt
  loop-eq-none (job ∷ jobs) e = elim (Option-cases (round none job)) [
    | inr (c, found) ↦ let (r, kept, _) = loop_keeps jobs c in absurd (cc (kept, (rw found at e)))
    | inl missed ↦ (
      λ end f. let (c, found, _) = round_covers none job end f in absurd (cc (found, missed)),
      loop-eq-none jobs (rw missed at e),
    )
  ]

  -- If LastFinished returns a Job, it is one of the given Jobs, it belongs to the CR, and it finished
  -- at a time after which no other finished Job of the CR finished.
  pub last_finished-IsLatest :
      (jobs : List Job) (job : Job)
      → last_finished namespace name_label name kind jobs ≡ some job
      → (end : Time) × Memᴰ job jobs × FinishedJob job end × All (NotAfter end) jobs
  unfolding last_finished
  last_finished-IsLatest jobs job e = elim (Option-cases (loop none jobs)) [
    | inl n ↦ absurd (cc (rw n at e))
    | inr (r, found) ↦ last_finished-IsLatest_from jobs job r found (some-eq (rw found at e))
  ]

  -- LastFinished returns nil exactly if no Job of the CR has finished.
  last_finished-eq-none_iff :
      (jobs : List Job)
      → (last_finished namespace name_label name kind jobs ≡ none)
        ↔ All (λ job. (end : Time) → ¬ FinishedJob job end) jobs
  unfolding last_finished
  last_finished-eq-none_iff jobs = elim (Option-cases (loop none jobs)) [
    | inl n ↦ (λ _. loop-eq-none jobs n, λ _. rw n)
    | inr (r, found) ↦ (
      λ e. absurd (cc (rw found at e)),
      λ unfinished. elim (loop_origin jobs none r found) [
        | inl none_r ↦ absurd (cc none_r)
        | inr (m, f) ↦
            absurd (All-mem (λ j. (end : Time) → ¬ FinishedJob j end) jobs unfinished m r.1 f)
      ],
    )
  ]
