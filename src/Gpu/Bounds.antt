-- ===== src/Gpu/Bounds.antt =====
-- pkg/gpu/pool.go: no worker gets more jobs than it has slots, and the one way round that.
use auxot.Common.{
  ℕ, ◌≡◌, refl, ◌⊎◌, inl, inr, true, some, arith, length, Text, text_comparable, Bool-cases,
  Option-cases, is_some,
}
use auxot.Common.Assoc.{lookup, insert, Each, insert-Each, erase-Each, length-insert, length-erase}
use auxot.Common.Int.{ℤ, pos, ltb_ℤ, ◌≤ℤ◌, ◌<ℤ◌}
use auxot.Gpu.{
  Pool, Worker, Capabilities, has_capacity, add, remove, heartbeat, update_capabilities, assign_job,
  complete_job, set_capabilities, with_job, without_job,
}
use auxot.Gpu.Invariant.{IsPool, Call, adds, removes, heartbeats, updates, assigns, completes, step}

-- A worker is idle, or has no more jobs than slots.
abbrev pub IsWithin : Worker → Type 0
IsWithin w = (length w.active_jobs ≡ 0) ⊎ (pos (length w.active_jobs) ≤ℤ w.max_slots)

abbrev pub AllWithin : Pool → Type 0
AllWithin p = Each (λ id w. IsWithin w) p.workers

-- A report of capabilities takes no slot away that a job holds; other calls are free.
abbrev pub Keeps : Pool → Call → Type 0
Keeps p (updates id caps) =
    (w : Worker)
    → lookup id p.workers ≡ some w
    → pos 0 <ℤ caps.total_slots
    → pos (length w.active_jobs) ≤ℤ caps.total_slots
Keeps p _ = Unit {0}

with_job-IsWithin :
    (now : ℕ) (job_id : Text) (w : Worker)
    → has_capacity w ≡ true
    → IsWithin (with_job now job_id w)
unfolding has_capacity with_job
with_job-IsWithin now job_id w free = ground (arith, length-insert job_id now w.active_jobs)

without_job-IsWithin : (job_id : Text) (w : Worker) → IsWithin w → IsWithin (without_job job_id w)
unfolding without_job
without_job-IsWithin job_id w h = ground (arith, length-erase job_id w.active_jobs)

set_capabilities-IsWithin :
    (caps : Capabilities) (w : Worker)
    → (pos 0 <ℤ caps.total_slots → pos (length w.active_jobs) ≤ℤ caps.total_slots)
    → IsWithin w
    → IsWithin (set_capabilities caps w)
unfolding set_capabilities
set_capabilities-IsWithin caps w keeps h = elim (Bool-cases (ltb_ℤ (pos 0) caps.total_slots)) [
  | inl reported ↦ rw reported (inr (keeps (ground arith)))
  | inr unknown ↦ rw unknown h
]

stored :
    (p : Pool) (id : Text) (w : Worker)
    → AllWithin p
    → IsWithin w
    → AllWithin (record p { workers = insert id w p.workers })
stored p id w all h = insert-Each (λ _ v. IsWithin v) id w p.workers h all

add-AllWithin :
    (now : ℕ) (id : Text) (caps : Capabilities) (max_slots : ℤ) (p : Pool)
    → AllWithin p
    → AllWithin (add now id caps max_slots p).1
unfolding add
add-AllWithin now id caps max_slots p all = elim (Bool-cases (is_some (lookup id p.workers))) [
  | inl old ↦ rw old all
  | inr new ↦ rw new (stored p id _ all (inl refl))
]

remove-AllWithin : (id : Text) (p : Pool) → IsPool p → AllWithin p → AllWithin (remove id p).1
unfolding remove
remove-AllWithin id p s all = elim (Option-cases (lookup id p.workers)) [
  | inl e ↦ rw (e, remove) all
  | inr (w, e) ↦ rw (e, remove) (erase-Each (λ _ v. IsWithin v) id p.workers s.unique all)
]

heartbeat-AllWithin :
    (now : ℕ) (id : Text) (p : Pool) → AllWithin p → AllWithin (heartbeat now id p).1
unfolding heartbeat
heartbeat-AllWithin now id p all = elim (Option-cases (lookup id p.workers)) [
  | inl e ↦ rw (e, heartbeat) all
  | inr (w, e) ↦ rw (e, heartbeat) (stored p id _ all (all id w e))
]

update-AllWithin :
    (id : Text) (caps : Capabilities) (p : Pool)
    → Keeps p (updates id caps)
    → AllWithin p
    → AllWithin (update_capabilities id caps p).1
unfolding update_capabilities
update-AllWithin id caps p keeps all = elim (Option-cases (lookup id p.workers)) [
  | inl e ↦ rw (e, update_capabilities) all
  | inr (w, e) ↦
      rw (e, update_capabilities)
        (stored p id _ all (set_capabilities-IsWithin caps w (keeps w e) (all id w e)))
]

assign-AllWithin :
    (now : ℕ) (worker_id job_id : Text) (p : Pool)
    → AllWithin p
    → AllWithin (assign_job now worker_id job_id p).1
unfolding assign_job
assign-AllWithin now worker_id job_id p all = elim (Option-cases (lookup worker_id p.workers)) [
  | inl e ↦ rw (e, assign_job) all
  | inr (w, e) ↦ elim (Bool-cases (has_capacity w)) [
    | inl free ↦
        rw (e, assign_job, free) (stored p worker_id _ all (with_job-IsWithin now job_id w free))
    | inr full ↦ rw (e, assign_job, full) all
  ]
]

complete-AllWithin :
    (worker_id job_id : Text) (p : Pool)
    → AllWithin p
    → AllWithin (complete_job worker_id job_id p).1
unfolding complete_job
complete-AllWithin worker_id job_id p all = elim (Option-cases (lookup worker_id p.workers)) [
  | inl e ↦ rw (e, complete_job) all
  | inr (w, e) ↦
      rw (e, complete_job)
        (stored p worker_id _ all (without_job-IsWithin job_id w (all worker_id w e)))
]

-- Every method keeps each worker idle or within its slots, provided that a report of capabilities
-- does not lower a worker's slots below the jobs that it holds.
pub step-AllWithin :
    (p : Pool) (c : Call) → IsPool p → Keeps p c → AllWithin p → AllWithin (step p c)
unfolding step
step-AllWithin p (adds now id caps max_slots) s k all = add-AllWithin now id caps max_slots p all
step-AllWithin p (removes id) s k all = remove-AllWithin id p s all
step-AllWithin p (heartbeats now id) s k all = heartbeat-AllWithin now id p all
step-AllWithin p (updates id caps) s k all = update-AllWithin id caps p k all
step-AllWithin p (assigns now w j) s k all = assign-AllWithin now w j p all
step-AllWithin p (completes w j) s k all = complete-AllWithin w j p all
