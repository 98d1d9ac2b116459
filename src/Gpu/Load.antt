-- ===== src/Gpu/Load.antt =====
-- pkg/gpu/pool.go: which worker SelectWorker picks.
use auxot.Common.{
  ℕ, ◌≤◌, ◌<◌, ◌≡◌, refl, sym, ap, ◌⊎◌, inl, inr, true, false, none, some, [], ◌∷◌, arith, length,
  Text, text_comparable, Bool-cases, ltb, In, here, there,
}
use auxot.Common.Assoc.{Assoc, lookup, lookup-of_In, In-of_lookup, IsMap}
use auxot.Common.Int.{ℤ, pos, negsuc}
use auxot.Gpu.{Pool, Worker, has_capacity, consider, select_from, select_worker, assign_job}

abbrev load : Worker → ℕ
load w = length w.active_jobs

-- What the rest of the loop returns when it starts with a worker `id` of load `n` as the best one.
record Chosen (ws : Assoc Text Worker) (id : Text) (n : ℕ) (r : Text) : Type 0 where
  best : ℕ
  from :
      ((r ≡ id) × (best ≡ n))
      ⊎ ((w : Worker) × In (r, w) ws × (has_capacity w ≡ true) × (load w ≡ best))
  improves : best ≤ n
  least : (j : Text) (v : Worker) → In (j, v) ws → has_capacity v ≡ true → best ≤ load v

consider_full :
    (id : Text) (w : Worker) (b : Text × ℤ) → has_capacity w ≡ false → consider id w b ≡ b
unfolding consider
consider_full id w (best_id, best_load) full = rw full

consider_free :
    (id : Text) (w : Worker) (best_id : Text) (n : ℕ)
    → has_capacity w ≡ true
    → ((consider id w (best_id, pos n) ≡ (id, pos (load w))) × (load w < n))
      ⊎ ((consider id w (best_id, pos n) ≡ (best_id, pos n)) × (n ≤ load w))
unfolding consider
consider_free id w best_id n free = elim (Bool-cases (ltb (load w) n)) [
  | inl less ↦ inl (rw free (ground arith), ground arith)
  | inr more ↦ inr (rw free (ground arith), ground arith)
]

consider_first :
    (id : Text) (w : Worker) (best_id : Text)
    → has_capacity w ≡ true
    → consider id w (best_id, negsuc 0) ≡ (id, pos (load w))
unfolding consider
consider_first id w best_id free = rw free (ground arith)

least_skip :
    (ws : Assoc Text Worker) (id : Text) (w : Worker) (best : ℕ)
    → (has_capacity w ≡ true → best ≤ load w)
    → ((j : Text) (v : Worker) → In (j, v) ws → has_capacity v ≡ true → best ≤ load v)
    → (j : Text) (v : Worker) → In (j, v) ((id, w) ∷ ws)
    → has_capacity v ≡ true
    → best ≤ load v
least_skip ws id w best first rest j v (here e) free =
    let same : v ≡ w = ap (λ p. p.1) e in rw same (first (rw (← same) free))
least_skip ws id w best first rest j v (there i) free = rest j v i free

-- The loop's next worker is passed over.
keep_best :
    (ws : Assoc Text Worker) (i : Text) (w : Worker) (id : Text) (n : ℕ) (r : Text)
    → (has_capacity w ≡ true → n ≤ load w)
    → Chosen ws id n r
    → Chosen ((i, w) ∷ ws) id n r
keep_best ws i w id n r worse c = record {
  best = c.best;
  from = elim c.from [ inl same ↦ inl same | inr (v, at, free, l) ↦ inr (v, there at, free, l) ];
  improves = c.improves;
  least =
      least_skip ws i w c.best
        (λ free. let bound : n ≤ load w = worse free in omega (arith, c.improves)) c.least;
}

-- The loop's next worker becomes the best one.
take_new :
    (ws : Assoc Text Worker) (i : Text) (w : Worker) (id : Text) (n : ℕ) (r : Text)
    → has_capacity w ≡ true
    → load w ≤ n
    → Chosen ws i (load w) r
    → Chosen ((i, w) ∷ ws) id n r
take_new ws i w id n r free better c = record {
  best = c.best;
  from = elim c.from [
    | inl (same, l) ↦ inr (w, here (ap (λ k. (k, w)) same), free, sym l)
    | inr (v, at, f, l) ↦ inr (v, there at, f, l)
  ];
  improves = omega (arith, c.improves);
  least = least_skip ws i w c.best (λ _. c.improves) c.least;
}

select_from-Chosen :
    (ws : Assoc Text Worker) (id : Text) (n : ℕ) → Chosen ws id n (select_from ws (id, pos n))
unfolding select_from
select_from-Chosen [] id n = record {
  best = n;
  from = inl (refl, refl);
  improves = omega arith;
  least = λ j v i _. elim i [ ];
}
select_from-Chosen ((i, w) ∷ ws) id n = elim (Bool-cases (has_capacity w)) [
  | inl free ↦ elim (consider_free i w id n free) [
    | inl (e, less) ↦
        rw e (take_new ws i w id n _ free (omega (arith, less)) (select_from-Chosen ws i (load w)))
    | inr (e, more) ↦ rw e (keep_best ws i w id n _ (λ _. more) (select_from-Chosen ws id n))
  ]
  | inr full ↦
      rw (consider_full i w (id, pos n) full)
        (keep_best ws i w id n _ (λ free. cc) (select_from-Chosen ws id n))
]

-- What the loop returns from its start: a least loaded worker, or the start's ID if all are full.
abbrev Selected : Assoc Text Worker → Text → Type 0
Selected ws r =
    ((r ≡ []) × ((j : Text) (v : Worker) → In (j, v) ws → has_capacity v ≡ false))
    ⊎ ((w : Worker) × In (r, w) ws
        × (has_capacity w ≡ true)
        × ((j : Text) (v : Worker) → In (j, v) ws → has_capacity v ≡ true → load w ≤ load v))

all_full :
    (ws : Assoc Text Worker) (i : Text) (w : Worker)
    → has_capacity w ≡ false
    → ((j : Text) (v : Worker) → In (j, v) ws → has_capacity v ≡ false)
    → (j : Text) (v : Worker) → In (j, v) ((i, w) ∷ ws)
    → has_capacity v ≡ false
all_full ws i w full rest j v (here e) = rw (ap (λ p. p.1) e) full
all_full ws i w full rest j v (there at) = rest j v at

Selected-full :
    (ws : Assoc Text Worker) (i : Text) (w : Worker) (r : Text)
    → has_capacity w ≡ false
    → Selected ws r
    → Selected ((i, w) ∷ ws) r
Selected-full ws i w r full (inl (e, none_free)) = inl (e, all_full ws i w full none_free)
Selected-full ws i w r full (inr (v, at, free, least)) =
    inr (v, there at, free, least_skip ws i w (load v) (λ f. cc) least)

Selected-free :
    (ws : Assoc Text Worker) (i : Text) (w : Worker) (r : Text)
    → has_capacity w ≡ true
    → Chosen ws i (load w) r
    → Selected ((i, w) ∷ ws) r
Selected-free ws i w r free c = elim c.from [
  | inl (same, l) ↦ inr (
    w,
    here (ap (λ k. (k, w)) same),
    free,
    least_skip ws i w (load w) (λ _. omega arith)
        (λ j v at f. let bound : c.best ≤ load v = c.least j v at f in omega (arith, l)),
  )
  | inr (u, at, f, l) ↦ inr (
    u,
    there at,
    f,
    least_skip ws i w (load u) (λ _. omega (arith, c.improves, l))
        (λ j v at' f'. let bound : c.best ≤ load v = c.least j v at' f' in omega (arith, l)),
  )
]

select_from-Selected : (ws : Assoc Text Worker) → Selected ws (select_from ws ([], negsuc 0))
unfolding select_from
select_from-Selected [] = inl (refl, λ j v at. elim at [ ])
select_from-Selected ((i, w) ∷ ws) = elim (Bool-cases (has_capacity w)) [
  | inl free ↦
      rw (consider_first i w [] free)
        (Selected-free ws i w _ free (select_from-Chosen ws i (load w)))
  | inr full ↦
      rw (consider_full i w ([], negsuc 0) full)
        (Selected-full ws i w _ full (select_from-Selected ws))
]

-- In whatever order the map is visited: SelectWorker returns the empty string and no worker has
-- capacity, or it returns the ID of a worker of the pool that has capacity, and no worker with
-- capacity has fewer active jobs.
pub select_worker_least :
    (p : Pool)
    → IsMap p.workers
    → ((select_worker p ≡ [])
        × ((j : Text) (v : Worker) → lookup j p.workers ≡ some v → has_capacity v ≡ false))
      ⊎ ((w : Worker) × (lookup (select_worker p) p.workers ≡ some w)
          × (has_capacity w ≡ true)
          × ((j : Text) (v : Worker)
              → lookup j p.workers ≡ some v
              → has_capacity v ≡ true
              → length w.active_jobs ≤ length v.active_jobs))
unfolding select_worker
select_worker_least p u = elim (select_from-Selected p.workers) [
  | inl (e, full) ↦ inl (e, λ j v h. full j v (In-of_lookup j v p.workers h))
  | inr (w, at, free, least) ↦
      inr (
        w,
        lookup-of_In _ w p.workers u at,
        free,
        λ j v h. least j v (In-of_lookup j v p.workers h),
      )
]

-- If any worker of the pool has capacity, then assigning a job to the selected worker succeeds.
pub assign_job-select_worker :
    (now : ℕ) (job_id : Text) (p : Pool) (id : Text) (w : Worker)
    → IsMap p.workers
    → lookup id p.workers ≡ some w
    → has_capacity w ≡ true
    → (assign_job now (select_worker p) job_id p).0 ≡ none
unfolding assign_job
assign_job-select_worker now job_id p id w u e free = elim (select_worker_least p u) [
  | inl (_, full) ↦ let no : has_capacity w ≡ false = full id w e in cc
  | inr (v, at, f, _) ↦ rw (at, assign_job, f)
]
