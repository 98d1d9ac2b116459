-- ===== src/Router/Race.antt =====
-- internal/router/wshandler.go: handleComplete and dispatchToWorker on one connection at the same time.
-- A method of the connection or of the pool is one step, under its mutex; the two goroutines take
-- turns between the methods. The acknowledgement, which comes between the two methods of
-- handleComplete, changes neither.
pub mod Lost
pub mod Phases
pub mod Kept
pub mod Tests
use auxot.Common.{ℕ, List, [], ◌∷◌, Text}
use auxot.Gpu
use auxot.Router.Conn.{
  WorkerConn, AssignResult, assign_ok, assign_duplicate, assign_at_capacity, assign_job,
  complete_job,
}

-- How far dispatchToWorker has come: before assignJob, before the pool's AssignJob, or past both.
pub data Dispatching : Type 0 where
  before_assign before_pool_assign past_assign : Dispatching

-- How far handleComplete has come: before completeJob, before the pool's CompleteJob, or past both.
pub data Completing : Type 0 where
  before_complete before_pool_complete past_complete : Completing

pub record Racing : Type 0 where
  pub conn : WorkerConn
  pub pool : Gpu.Pool
  pub dispatching : Dispatching
  pub completing : Completing

-- A job that the connection does not take is not reported to the pool.
unfoldable pub after_assign : AssignResult → Dispatching
after_assign assign_ok = before_pool_assign
after_assign assign_duplicate = past_assign
after_assign assign_at_capacity = past_assign

-- The next method that dispatchToWorker calls for a job and its entry. The pool's error is dropped.
unfoldable pub dispatch_turn : Dispatching → ℕ → Text → Text → Racing → Racing
unfolding after_assign
dispatch_turn before_assign now job_id entry_id s =
    let (result, conn') = assign_job now job_id entry_id s.conn in
    record s { conn = conn'; dispatching = after_assign result }
dispatch_turn before_pool_assign now job_id entry_id s = record s {
  pool = (Gpu.assign_job now s.conn.id job_id s.pool).1;
  dispatching = past_assign;
}
dispatch_turn past_assign now job_id entry_id s = s

-- The next method that handleComplete calls for a job.
unfoldable pub complete_turn : Completing → Text → Racing → Racing
complete_turn before_complete job_id s = record s {
  conn = (complete_job job_id s.conn).1;
  completing = before_pool_complete;
}
complete_turn before_pool_complete job_id s = record s {
  pool = (Gpu.complete_job s.conn.id job_id s.pool).1;
  completing = past_complete;
}
complete_turn past_complete job_id s = s

-- Whose turn it is.
pub data Turn : Type 0 where
  dispatches completes : Turn

-- A job that is dispatched with its entry, while another is completed.
pub record Overlap : Type 0 where
  pub now : ℕ
  pub job_id : Text
  pub entry_id : Text
  pub completed_id : Text

unfoldable pub take_turns : Overlap → List Turn → Racing → Racing
unfolding dispatch_turn complete_turn
take_turns o [] s = s
take_turns o (dispatches ∷ turns) s =
    take_turns o turns (dispatch_turn s.dispatching o.now o.job_id o.entry_id s)
take_turns o (completes ∷ turns) s =
    take_turns o turns (complete_turn s.completing o.completed_id s)

-- Both goroutines at their beginning.
abbrev pub start : WorkerConn → Gpu.Pool → Racing
start wc p = record {
  conn = wc;
  pool = p;
  dispatching = before_assign;
  completing = before_complete;
}
