-- ===== src/Router/Race/Lost.antt =====
-- internal/router/wshandler.go: a job that the connection has in flight and the pool does not.
use auxot.Common.{
  ℕ, suc, ◌≡◌, refl, sym, ap, ◌∙◌, true, false, none, some, List, [], ◌∷◌, Text, text_comparable,
  length, arith, is_some,
}
use auxot.Common.Assoc.{
  lookup, insert, erase, lookup-insert_self, length-erase, lookup-erase_absent,
}
use auxot.Common.Keys.{is_some-lookup-keys, length-keys}
use auxot.Common.Int.{pos, ltb_ℤ, leb_ℤ}
use auxot.Gpu
use auxot.Router.Conn.{WorkerConn, assign_ok, assign_job}
use auxot.Router.Conn.Slots.{InSync, complete_job-conn, none_of}
use auxot.Router.Race.{
  start, Overlap, Turn, dispatches, completes, past_assign, past_complete, take_turns,
  dispatch_turn, complete_turn, after_assign,
}

-- A connection whose slots are all taken takes another job once one has been completed.
assign_job-freed :
    (o : Overlap) (wc : WorkerConn)
    → wc.max_slots ≡ pos (length wc.active_jobs)
    → is_some (lookup o.completed_id wc.active_jobs) ≡ true
    → lookup o.job_id wc.active_jobs ≡ none
    → let m = erase o.completed_id wc.active_jobs in
      assign_job o.now o.job_id o.entry_id (record wc { active_jobs = m }) ≡ (
        assign_ok,
        record wc {
          active_jobs = insert o.job_id (record { entry_id = o.entry_id; assigned_at = o.now }) m;
        },
      )
unfolding assign_job
assign_job-freed o wc full there new =
    let m = erase o.completed_id wc.active_jobs in
    let absent : lookup o.job_id m ≡ none =
      lookup-erase_absent o.job_id o.completed_id wc.active_jobs new in
    let count : length wc.active_jobs ≡ suc (length m) =
      length-erase o.completed_id wc.active_jobs ∙ rw there in
    let free : leb_ℤ wc.max_slots (pos (length m)) ≡ false = rw (full, count) (ground arith) in
    rw (absent, assign_job, free)

-- The pool, whose slots are still taken, does not.
pool_refuses :
    (now : ℕ) (job_id : Text) (wc : WorkerConn) (p : Gpu.Pool) (s : InSync wc p)
    → wc.max_slots ≡ pos (length wc.active_jobs)
    → (Gpu.assign_job now wc.id job_id p).1 ≡ p
unfolding Gpu.assign_job Gpu.has_capacity
pool_refuses now job_id wc p s full =
    let same : wc.max_slots ≡ pos (length s.worker.active_jobs) =
      full ∙ ap pos (length-keys wc.active_jobs s.worker.active_jobs s.same_jobs) in
    let taken : ltb_ℤ (pos (length s.worker.active_jobs)) s.worker.max_slots ≡ false =
      rw (sym s.same_slots, same) (ground arith) in
    rw (s.found, Gpu.assign_job, Gpu.has_capacity, taken)

-- A worker's slots are all taken, by the connection's record and the pool's, which agree. When one of
-- its jobs is completed while another job is dispatched to it, the two goroutines can take turns so
-- that both run to their end, and the connection then has the other job in flight while the pool
-- still has the worker but not the job.
pub take_turns-lost :
    (o : Overlap) (wc : WorkerConn) (p : Gpu.Pool)
    → InSync wc p
    → wc.max_slots ≡ pos (length wc.active_jobs)
    → is_some (lookup o.completed_id wc.active_jobs) ≡ true
    → lookup o.job_id wc.active_jobs ≡ none
    → (turns : List Turn) × (let s = take_turns o turns (start wc p) in
        (s.dispatching ≡ past_assign)
        × (s.completing ≡ past_complete)
        × (lookup o.job_id s.conn.active_jobs
            ≡ some (record { entry_id = o.entry_id; assigned_at = o.now }))
        × ((worker : Gpu.Worker) × (lookup wc.id s.pool.workers ≡ some worker)
            × (lookup o.job_id worker.active_jobs ≡ none)))
unfolding take_turns dispatch_turn complete_turn after_assign Gpu.complete_job
take_turns-lost o wc p s full there new =
    let m = erase o.completed_id wc.active_jobs in
    let absent : lookup o.job_id s.worker.active_jobs ≡ none = none_of _ (
      sym (is_some-lookup-keys o.job_id wc.active_jobs s.worker.active_jobs s.same_jobs)
      ∙ rw new) in
    (
      completes ∷ dispatches ∷ dispatches ∷ completes ∷ [],
      rw
          (
            complete_job-conn,
            assign_job-freed o wc full there new,
            pool_refuses o.now o.job_id wc p s full,
            s.found,
            Gpu.complete_job,
          )
          (
            refl,
            refl,
            lookup-insert_self o.job_id _ m,
            (
              record s.worker { active_jobs = erase o.completed_id s.worker.active_jobs },
              lookup-insert_self wc.id _ _,
              lookup-erase_absent o.job_id o.completed_id s.worker.active_jobs absent,
            ),
          ),
    )
