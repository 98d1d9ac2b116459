-- ===== src/Gpu/Liveness.antt =====
-- pkg/gpu/pool.go: which workers DeadWorkers reports, and what a removed worker leaves.
use auxot.Common.{
  ℕ, ◌+◌, ◌-◌, ◌≤◌, ◌<◌, ◌≡◌, refl, sym, ap, ◌∙◌, inl, inr, ◌↔◌, true, false, none, some, [], ◌∷◌,
  arith, Text, text_comparable, Bool-cases, Option-cases, ltb, In, here, there, In-cons, equal_refl,
}
use auxot.Common.Assoc.{
  Assoc, lookup, insert, erase, IsMap, lookup-of_In, In-of_lookup, lookup-insert_self, lookup-erase,
  insert-IsMap, keys,
}
use auxot.Gpu.{
  Pool, Worker, heartbeat, dead_in, dead_workers, remove, assign_job, complete_job, not_in_pool,
}

dead_in-old :
    (cutoff : ℕ) (ws : Assoc Text Worker) (id : Text)
    → In id (dead_in cutoff ws)
    → (w : Worker) × In (id, w) ws × (w.last_heartbeat < cutoff)
unfolding dead_in
dead_in-old cutoff [] id i = elim i [ ]
dead_in-old cutoff ((j, w) ∷ ws) id i = elim (Bool-cases (ltb w.last_heartbeat cutoff)) [
  | inl old ↦ elim (In-cons (rw old at i)) [
    | inl e ↦ (w, here (ap (λ k. (k, w)) e), ground arith)
    | inr r ↦ let (v, at, h) = dead_in-old cutoff ws id r in (v, there at, h)
  ]
  | inr new ↦ let (v, at, h) = dead_in-old cutoff ws id (rw new at i) in (v, there at, h)
]

dead_in_complete :
    (cutoff : ℕ) (ws : Assoc Text Worker) (id : Text) (w : Worker)
    → In (id, w) ws
    → w.last_heartbeat < cutoff
    → In id (dead_in cutoff ws)
unfolding dead_in
dead_in_complete cutoff [] id w i h = elim i [ ]
dead_in_complete cutoff ((j, v) ∷ ws) id w (here e) h =
    let same : w ≡ v = ap (λ p. p.1) e in
    let old : ltb v.last_heartbeat cutoff ≡ true = rw (← same) (ground arith) in
    rw old (here (ap (λ p. p.0) e))
dead_in_complete cutoff ((j, v) ∷ ws) id w (there i) h =
    let rest = dead_in_complete cutoff ws id w i h in
    elim (Bool-cases (ltb v.last_heartbeat cutoff)) [
      | inl old ↦ rw old (there rest)
      | inr new ↦ rw new rest
    ]

-- DeadWorkers reports an ID exactly when it is in the pool with a last heartbeat that is more than
-- `max_age` in the past.
pub dead_workers_iff :
    (now max_age : ℕ) (p : Pool) (id : Text)
    → IsMap p.workers
    → In id (dead_workers now max_age p)
      ↔ ((w : Worker) × (lookup id p.workers ≡ some w) × (w.last_heartbeat + max_age < now))
unfolding dead_workers
dead_workers_iff now max_age p id u = (
  λ i.
      let (w, at, h) = dead_in-old (now - max_age) p.workers id i in
      (w, lookup-of_In id w p.workers u at, omega (arith, h)),
  λ (w, e, h).
      dead_in_complete (now - max_age) p.workers id w (In-of_lookup id w p.workers e)
        (omega (arith, h)),
)

-- A worker whose heartbeat was accepted is not reported dead before `max_age` has passed.
pub dead_workers-heartbeat :
    (sent now max_age : ℕ) (p : Pool) (id : Text)
    → IsMap p.workers
    → (heartbeat sent id p).0 ≡ true
    → now ≤ sent + max_age
    → ¬ In id (dead_workers now max_age (heartbeat sent id p).1)
unfolding heartbeat
dead_workers-heartbeat sent now max_age p id u ok h dead =
    elim (Option-cases (lookup id p.workers)) [
      | inl e ↦ let no : false ≡ true = rw (e, heartbeat) at ok in cc
      | inr (w, e) ↦
          let fresh : Worker = record w { last_heartbeat = sent } in
          let q : Pool = record p { workers = insert id fresh p.workers } in
          let dead' : In id (dead_workers now max_age q) = rw (e, heartbeat) at dead in
          let (v, at, old) =
            (dead_workers_iff now max_age q id (insert-IsMap id fresh p.workers u)).0 dead' in
          let same : some fresh ≡ some v = sym (lookup-insert_self id fresh p.workers) ∙ at in
          let time : fresh.last_heartbeat ≡ v.last_heartbeat = ground arith in
          absurd (omega (arith, time, old))
    ]

removed :
    (id : Text) (p : Pool) (w : Worker)
    → lookup id p.workers ≡ some w
    → remove id p ≡ (keys w.active_jobs, record p { workers = erase id p.workers })
unfolding remove
removed id p w e = rw (e, remove)

-- Every method refuses a worker that is not in the pool and leaves the pool as it is.
refuses_unknown :
    (id job_id : Text) (now : ℕ) (q : Pool)
    → lookup id q.workers ≡ none
    → (assign_job now id job_id q ≡ (some not_in_pool, q))
      × (complete_job id job_id q ≡ (false, q))
      × (heartbeat now id q ≡ (false, q))
unfolding assign_job complete_job heartbeat
refuses_unknown id job_id now q e = (rw (e, assign_job), rw (e, complete_job), rw (e, heartbeat))

-- Remove hands back the IDs of exactly the removed worker's active jobs, in some order, and after
-- it the worker is unknown: it takes no job, completes none and sends no heartbeat.
pub remove_lem :
    (id job_id : Text) (now : ℕ) (p : Pool) (w : Worker)
    → IsMap p.workers
    → lookup id p.workers ≡ some w
    → let (orphaned, q) = remove id p in
      (orphaned ≡ keys w.active_jobs)
      × (lookup id q.workers ≡ none)
      × (assign_job now id job_id q ≡ (some not_in_pool, q))
      × (complete_job id job_id q ≡ (false, q))
      × (heartbeat now id q ≡ (false, q))
remove_lem id job_id now p w u e =
    let q : Pool = record p { workers = erase id p.workers } in
    let gone : lookup id q.workers ≡ none = lookup-erase id id p.workers u ∙ rw (equal_refl id) in
    let (a, c, h) = refuses_unknown id job_id now q gone in
    rw (removed id p w e) (refl, gone, a, c, h)
