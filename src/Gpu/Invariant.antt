-- ===== src/Gpu/Invariant.antt =====
-- pkg/gpu/pool.go: what holds of the pool after any sequence of its methods.
use auxot.Common.{
  ℕ, ◌≡◌, refl, inl, inr, some, List, [], ◌∷◌, Text, text_comparable, Option-cases, Bool-cases,
  is_some,
}
use auxot.Common.Assoc.{
  lookup, insert, IsMap, Each, insert-IsMap, erase-IsMap, insert-Each, erase-Each,
}
use auxot.Common.Int.{ℤ, pos, ltb_ℤ}
use auxot.Gpu.{
  Pool, Worker, Capabilities, has_capacity, new_pool, add, remove, heartbeat, update_capabilities,
  assign_job, complete_job, set_capabilities, with_job, without_job,
}

-- A worker is stored under its own ID, and its jobs are a map.
pub record IsWorker (id : Text) (w : Worker) : Type 0 where
  pub own_id : w.id ≡ id
  pub jobs : IsMap w.active_jobs

pub record IsPool (p : Pool) : Type 0 where
  pub unique : IsMap p.workers
  pub each : Each IsWorker p.workers

-- A method's call.
pub data Call : Type 0 where
  adds : ℕ → Text → Capabilities → ℤ → Call
  removes : Text → Call
  heartbeats : ℕ → Text → Call
  updates : Text → Capabilities → Call
  assigns : ℕ → Text → Text → Call
  completes : Text → Text → Call

unfoldable pub step : Pool → Call → Pool
step p (adds now id caps max_slots) = (add now id caps max_slots p).1
step p (removes id) = (remove id p).1
step p (heartbeats now id) = (heartbeat now id p).1
step p (updates id caps) = (update_capabilities id caps p).1
step p (assigns now worker_id job_id) = (assign_job now worker_id job_id p).1
step p (completes worker_id job_id) = (complete_job worker_id job_id p).1

unfoldable pub run : Pool → List Call → Pool
run p [] = p
run p (c ∷ cs) = run (step p c) cs

stored :
    (p : Pool) (id : Text) (w : Worker)
    → IsPool p
    → IsWorker id w
    → IsPool (record p { workers = insert id w p.workers })
stored p id w s h = record {
  unique = insert-IsMap id w p.workers s.unique;
  each = insert-Each IsWorker id w p.workers h s.each;
}

add-IsPool :
    (now : ℕ) (id : Text) (caps : Capabilities) (max_slots : ℤ) (p : Pool)
    → IsPool p
    → IsPool (add now id caps max_slots p).1
unfolding add
add-IsPool now id caps max_slots p s = elim (Bool-cases (is_some (lookup id p.workers))) [
  | inl old ↦ rw old s
  | inr new ↦ rw new (stored p id _ s (record { own_id = refl; jobs = tt }))
]

-- A method that changes one worker in place keeps the invariant if the change does.
changed :
    (f : Worker → Worker) (p : Pool) (id : Text) (w : Worker)
    → IsPool p
    → lookup id p.workers ≡ some w
    → ((v : Worker) → IsWorker id v → IsWorker id (f v))
    → IsPool (record p { workers = insert id (f w) p.workers })
changed f p id w s e keeps = stored p id (f w) s (keeps w (s.each id w e))

heartbeat-IsPool : (now : ℕ) (id : Text) (p : Pool) → IsPool p → IsPool (heartbeat now id p).1
unfolding heartbeat
heartbeat-IsPool now id p s = elim (Option-cases (lookup id p.workers)) [
  | inl e ↦ rw (e, heartbeat) s
  | inr (w, e) ↦
      rw (e, heartbeat)
        (changed (λ v. record v { last_heartbeat = now }) p id w s e
          (λ v h. record { own_id = h.own_id; jobs = h.jobs }))
]

set_capabilities-IsWorker :
    (caps : Capabilities) (id : Text) (w : Worker)
    → IsWorker id w
    → IsWorker id (set_capabilities caps w)
unfolding set_capabilities
set_capabilities-IsWorker caps id w h = elim (Bool-cases (ltb_ℤ (pos 0) caps.total_slots)) [
  | inl reported ↦ rw reported (record { own_id = h.own_id; jobs = h.jobs })
  | inr unknown ↦ rw unknown (record { own_id = h.own_id; jobs = h.jobs })
]

update-IsPool :
    (id : Text) (caps : Capabilities) (p : Pool)
    → IsPool p
    → IsPool (update_capabilities id caps p).1
unfolding update_capabilities
update-IsPool id caps p s = elim (Option-cases (lookup id p.workers)) [
  | inl e ↦ rw (e, update_capabilities) s
  | inr (w, e) ↦
      rw (e, update_capabilities)
        (changed (set_capabilities caps) p id w s e (set_capabilities-IsWorker caps id))
]

assign-IsPool :
    (now : ℕ) (worker_id job_id : Text) (p : Pool)
    → IsPool p
    → IsPool (assign_job now worker_id job_id p).1
unfolding assign_job
assign-IsPool now worker_id job_id p s = elim (Option-cases (lookup worker_id p.workers)) [
  | inl e ↦ rw (e, assign_job) s
  | inr (w, e) ↦ elim (Bool-cases (has_capacity w)) [
    | inl free ↦
        rw (e, assign_job, free)
          (changed (with_job now job_id) p worker_id w s e (λ v h. record {
            own_id = h.own_id;
            jobs = insert-IsMap job_id now v.active_jobs h.jobs;
          }))
    | inr full ↦ rw (e, assign_job, full) s
  ]
]

complete-IsPool :
    (worker_id job_id : Text) (p : Pool) → IsPool p → IsPool (complete_job worker_id job_id p).1
unfolding complete_job
complete-IsPool worker_id job_id p s = elim (Option-cases (lookup worker_id p.workers)) [
  | inl e ↦ rw (e, complete_job) s
  | inr (w, e) ↦
      rw (e, complete_job)
        (changed (without_job job_id) p worker_id w s e
          (λ v h. record { own_id = h.own_id; jobs = erase-IsMap job_id v.active_jobs h.jobs }))
]

remove-IsPool : (id : Text) (p : Pool) → IsPool p → IsPool (remove id p).1
unfolding remove
remove-IsPool id p s = elim (Option-cases (lookup id p.workers)) [
  | inl e ↦ rw (e, remove) s
  | inr (w, e) ↦
      rw (e, remove)
        (record {
          unique = erase-IsMap id p.workers s.unique;
          each = erase-Each IsWorker id p.workers s.unique s.each;
        })
]

pub step-IsPool : (p : Pool) (c : Call) → IsPool p → IsPool (step p c)
unfolding step
step-IsPool p (adds now id caps max_slots) s = add-IsPool now id caps max_slots p s
step-IsPool p (removes id) s = remove-IsPool id p s
step-IsPool p (heartbeats now id) s = heartbeat-IsPool now id p s
step-IsPool p (updates id caps) s = update-IsPool id caps p s
step-IsPool p (assigns now worker_id job_id) s = assign-IsPool now worker_id job_id p s
step-IsPool p (completes worker_id job_id) s = complete-IsPool worker_id job_id p s

run-IsPool : (p : Pool) (cs : List Call) → IsPool p → IsPool (run p cs)
unfolding run
run-IsPool p [] s = s
run-IsPool p (c ∷ cs) s = run-IsPool (step p c) cs (step-IsPool p c s)

new_pool-IsPool : IsPool new_pool
unfolding new_pool lookup
new_pool-IsPool = record { unique = tt; each = λ k v h. cc }

-- After any sequence of the pool's methods on a new pool, each worker ID occurs once, every worker
-- is stored under its own ID, and each job ID occurs once among a worker's active jobs.
pub run-new_pool-IsPool : (cs : List Call) → IsPool (run new_pool cs)
run-new_pool-IsPool cs = run-IsPool new_pool cs new_pool-IsPool
