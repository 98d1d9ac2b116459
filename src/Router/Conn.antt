-- ===== src/Router/Conn.antt =====
-- internal/router/wshandler.go: the jobs in flight on one worker's connection. The mutex makes each
-- method one step; `time.Now()` is an argument, in nanoseconds.
pub mod Slots
use auxot.Common.{
  ℕ, ◌-◌, ◌≡◌, Bool, true, false, Option, none, some, List, [], ◌∷◌, Text, text_comparable, length,
  ltb, not, is_some, if◌then◌else◌,
}
use auxot.Common.Assoc.{Assoc, lookup, insert, erase, keys}
use auxot.Common.Int.{ℤ, pos, ltb_ℤ, leb_ℤ}

pub record ActiveJob : Type 0 where
  pub entry_id : Text
  pub assigned_at : ℕ

pub record WorkerConn : Type 0 where
  pub id : Text
  pub active_jobs : Assoc Text ActiveJob
  pub max_slots : ℤ

unfoldable pub has_capacity : WorkerConn → Bool
has_capacity wc = ltb_ℤ (pos (length wc.active_jobs)) wc.max_slots

pub data AssignResult : Type 0 where
  assign_ok assign_duplicate assign_at_capacity : AssignResult

unfoldable pub assign_job : ℕ → Text → Text → WorkerConn → AssignResult × WorkerConn
assign_job now job_id entry_id wc =
    if is_some (lookup job_id wc.active_jobs)
    then (assign_duplicate, wc)
    else if leb_ℤ wc.max_slots (pos (length wc.active_jobs))
    then (assign_at_capacity, wc)
    else (
      assign_ok,
      record wc {
        active_jobs =
            insert job_id (record { entry_id = entry_id; assigned_at = now }) wc.active_jobs;
      },
    )

-- A job that is not there gives the zero value, with an empty entry ID.
unfoldable pub complete_job : Text → WorkerConn → Text × WorkerConn
complete_job job_id wc = elim (lookup job_id wc.active_jobs) [
  | none ↦ ([], wc)
  | some aj ↦ (aj.entry_id, record wc { active_jobs = erase job_id wc.active_jobs })
]

pub record StaleJob : Type 0 where
  pub job_id : Text
  pub entry_id : Text
  pub age : ℕ

unfoldable pub stale_in : ℕ → ℕ → Assoc Text ActiveJob → List StaleJob
stale_in now timeout [] = []
stale_in now timeout ((job_id, aj) ∷ jobs) =
    let rest = stale_in now timeout jobs in
    let age : ℕ = now - aj.assigned_at in
    if ltb timeout age
    then record { job_id = job_id; entry_id = aj.entry_id; age = age } ∷ rest
    else rest

unfoldable pub stale_jobs : ℕ → ℕ → WorkerConn → List StaleJob
unfolding stale_in
stale_jobs now timeout wc = stale_in now timeout wc.active_jobs

unfoldable pub active_job_ids : WorkerConn → List Text
active_job_ids wc = keys wc.active_jobs
