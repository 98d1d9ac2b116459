-- ===== src/Gpu.antt =====
-- pkg/gpu/pool.go: the router's pool of connected GPU workers. A method takes the pool and returns
-- the new one; the mutex makes each method one step. `time.Now()` is an argument, in nanoseconds.
-- A map's entries are a list in the order in which `range` visits them.
pub mod Invariant
pub mod Load
pub mod Slots
pub mod Bounds
pub mod Liveness
pub mod Tests
use auxot.Common.{
  ℕ, ◌+◌, ◌-◌, ◌<◌, ◌≡◌, Bool, true, false, ◌||◌, Option, none, some, List, [], ◌∷◌, map, arith,
  ltb, if◌then◌else◌, length, keep, Text, text_comparable, is_some,
}
use auxot.Common.Assoc.{Assoc, keys, lookup, insert, erase}
use auxot.Common.Int.{ℤ, pos, negsuc, ◌+ℤ◌, ◌-ℤ◌, ltb_ℤ, beq_ℤ, wrap_int}

-- `vram_gb` is a float64 that no method looks at: it is kept by its 64 bits.
pub record Capabilities : Type 0 where
  pub backend : Text
  pub model : Text
  pub ctx_size : ℤ
  pub vram_gb : ℕ
  pub parameters : Text
  pub total_slots : ℤ

pub record Worker : Type 0 where
  pub id : Text
  pub capabilities : Capabilities
  pub active_jobs : Assoc Text ℕ
  pub max_slots : ℤ
  pub connected_at : ℕ
  pub last_heartbeat : ℕ

pub record Pool : Type 0 where
  pub workers : Assoc Text Worker

pub data Error : Type 0 where
  already_in_pool not_in_pool at_capacity : Error

-- An `error` that is nil is `none`.
abbrev pub Err : Type 0
Err = Option Error

unfoldable pub has_capacity : Worker → Bool
has_capacity w = ltb_ℤ (pos (length w.active_jobs)) w.max_slots

pub active_job_count : Worker → ℕ
active_job_count w = length w.active_jobs

unfoldable pub new_pool : Pool
new_pool = record { workers = [] }

unfoldable pub add : ℕ → Text → Capabilities → ℤ → Pool → Err × Pool
add now id caps max_slots p =
    if is_some (lookup id p.workers)
    then (some already_in_pool, p)
    else (none, record p { workers = insert id worker p.workers })
  where
    worker : Worker
    worker = record {
      id = id;
      capabilities = caps;
      active_jobs = [];
      max_slots = max_slots;
      connected_at = now;
      last_heartbeat = now;
    }

unfoldable pub remove : Text → Pool → List Text × Pool
remove id p = elim (lookup id p.workers) [
  | none ↦ ([], p)
  | some worker ↦ (keys worker.active_jobs, record p { workers = erase id p.workers })
]

unfoldable pub heartbeat : ℕ → Text → Pool → Bool × Pool
heartbeat now id p = elim (lookup id p.workers) [
  | none ↦ (false, p)
  | some worker ↦
      (true, record p { workers = insert id (record worker { last_heartbeat = now }) p.workers })
]

-- What UpdateCapabilities makes of a worker: the slots change only if some are reported.
unfoldable pub set_capabilities : Capabilities → Worker → Worker
set_capabilities caps worker =
    if ltb_ℤ (pos 0) caps.total_slots
    then record worker { capabilities = caps; max_slots = caps.total_slots }
    else record worker { capabilities = caps }

unfoldable pub update_capabilities : Text → Capabilities → Pool → Bool × Pool
unfolding set_capabilities
update_capabilities id caps p = elim (lookup id p.workers) [
  | none ↦ (false, p)
  | some worker ↦ (true, record p { workers = insert id (set_capabilities caps worker) p.workers })
]

-- The worker with a job marked as active since `now`.
with_job : ℕ → Text → Worker → Worker
with_job now job_id worker = record worker { active_jobs = insert job_id now worker.active_jobs }

without_job : Text → Worker → Worker
without_job job_id worker = record worker { active_jobs = erase job_id worker.active_jobs }

unfoldable pub assign_job : ℕ → Text → Text → Pool → Err × Pool
unfolding with_job
assign_job now worker_id job_id p = elim (lookup worker_id p.workers) [
  | none ↦ (some not_in_pool, p)
  | some worker ↦
      if has_capacity worker
      then (none, record p { workers = insert worker_id (with_job now job_id worker) p.workers })
      else (some at_capacity, p)
]

unfoldable pub complete_job : Text → Text → Pool → Bool × Pool
unfolding without_job
complete_job worker_id job_id p = elim (lookup worker_id p.workers) [
  | none ↦ (false, p)
  | some worker ↦ (
    is_some (lookup job_id worker.active_jobs),
    record p { workers = insert worker_id (without_job job_id worker) p.workers },
  )
]

-- One round of SelectWorker's loop over (bestID, bestLoad); bestLoad is -1 until a worker fits.
consider : Text → Worker → Text × ℤ → Text × ℤ
consider id w (best_id, best_load) =
    if has_capacity w
    then (if beq_ℤ best_load (negsuc 0) || ltb_ℤ (pos (length w.active_jobs)) best_load
        then (id, pos (length w.active_jobs))
        else (best_id, best_load))
    else (best_id, best_load)

select_from : Assoc Text Worker → Text × ℤ → Text
select_from [] best = best.0
select_from ((id, w) ∷ ws) best = select_from ws (consider id w best)

unfoldable pub select_worker : Pool → Text
unfolding select_from consider
select_worker p = select_from p.workers ([], negsuc 0)

pub size : Pool → ℕ
size p = length p.workers

-- total += w.MaxSlots - len(w.ActiveJobs), in machine integers.
add_capacity : Assoc Text Worker → ℤ → ℤ
add_capacity [] total = total
add_capacity ((id, w) ∷ ws) total =
    add_capacity ws (wrap_int (total +ℤ wrap_int (w.max_slots -ℤ pos (length w.active_jobs))))

unfoldable pub total_capacity : Pool → ℤ
unfolding add_capacity
total_capacity p = add_capacity p.workers (pos 0)

unfoldable pub worker_ids : Pool → List Text
worker_ids p = keys p.workers

dead_in : ℕ → Assoc Text Worker → List Text
dead_in cutoff [] = []
dead_in cutoff ((id, w) ∷ ws) =
    let rest = dead_in cutoff ws in if ltb w.last_heartbeat cutoff then id ∷ rest else rest

-- A cutoff before the origin of time counts nobody as dead, as the origin does.
unfoldable pub dead_workers : ℕ → ℕ → Pool → List Text
unfolding dead_in
dead_workers now max_age p = dead_in (now - max_age) p.workers

pub record WorkerSnapshot : Type 0 where
  pub id : Text
  pub capabilities : Capabilities
  pub active_job_ids : List Text
  pub max_slots : ℤ
  pub connected_at : ℕ
  pub last_heartbeat : ℕ

unfoldable pub snapshot_of : Worker → WorkerSnapshot
snapshot_of w = record {
  id = w.id;
  capabilities = w.capabilities;
  active_job_ids = keys w.active_jobs;
  max_slots = w.max_slots;
  connected_at = w.connected_at;
  last_heartbeat = w.last_heartbeat;
}

unfoldable pub snapshot : Pool → List WorkerSnapshot
unfolding snapshot_of
snapshot p = map (λ e. snapshot_of e.1) p.workers
