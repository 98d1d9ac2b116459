-- ===== src/Router/Conn/Slots.antt =====
-- internal/router/wshandler.go and pkg/gpu/pool.go: the connection and the pool each keep the jobs
-- and the slots of the worker. Each operation that the handlers run on both keeps the two equal.
use auxot.Common.{
  ℕ, ◌≡◌, refl, sym, ap, ◌∙◌, true, false, Option, none, some, Text, text_comparable, length, inl,
  inr, arith, Bool-cases, Option-cases, is_some,
}
use auxot.Common.Assoc.{
  Assoc, lookup, insert, erase, keys, lookup-insert_self, erase-absent, erase-insert,
}
use auxot.Common.Keys.{is_some-lookup-keys, length-keys, keys-insert, keys-erase}
use auxot.Common.Int.{ℤ, pos, ltb_ℤ, leb_ℤ}
use auxot.Gpu
use auxot.Gpu.Slots.{complete_job-assign_job}
use auxot.Router.Conn.{
  WorkerConn, ActiveJob, assign_ok, assign_duplicate, assign_at_capacity, assign_job, complete_job,
  has_capacity,
}

-- The worker is in the pool, with the connection's jobs and slots.
pub record InSync (wc : WorkerConn) (p : Gpu.Pool) : Type 0 where
  pub worker : Gpu.Worker
  pub found : lookup wc.id p.workers ≡ some worker
  pub same_jobs : keys wc.active_jobs ≡ keys worker.active_jobs
  pub same_slots : wc.max_slots ≡ worker.max_slots

-- What a successful assignJob found and did.
pub record Assigned (now : ℕ) (job_id entry_id : Text) (wc : WorkerConn) : Type 0 where
  pub is_new : lookup job_id wc.active_jobs ≡ none
  pub has_slot : has_capacity wc ≡ true
  pub conn_after : (assign_job now job_id entry_id wc).1 ≡ record wc {
    active_jobs = insert job_id (record { entry_id = entry_id; assigned_at = now }) wc.active_jobs;
  }

not_above : (a b : ℤ) → leb_ℤ a b ≡ false → ltb_ℤ b a ≡ true
not_above a b h = ground arith

pub assign_job-Assigned :
    (now : ℕ) (job_id entry_id : Text) (wc : WorkerConn)
    → (assign_job now job_id entry_id wc).0 ≡ assign_ok
    → Assigned now job_id entry_id wc
unfolding assign_job has_capacity
assign_job-Assigned now job_id entry_id wc h = elim (Option-cases (lookup job_id wc.active_jobs)) [
  | inr (aj, e) ↦ let no : assign_duplicate ≡ assign_ok = rw (e, assign_job) at h in cc
  | inl e ↦ elim (Bool-cases (leb_ℤ wc.max_slots (pos (length wc.active_jobs)))) [
    | inl full ↦ let no : assign_at_capacity ≡ assign_ok = rw (e, assign_job, full) at h in cc
    | inr free ↦ record {
      is_new = e;
      has_slot = not_above wc.max_slots (pos (length wc.active_jobs)) free;
      conn_after = rw (e, assign_job, free);
    }
  ]
]

-- A worker that is in step with the connection goes back into the pool.
put_back :
    (wc : WorkerConn) (p : Gpu.Pool) (w : Gpu.Worker)
    → keys wc.active_jobs ≡ keys w.active_jobs
    → wc.max_slots ≡ w.max_slots
    → InSync wc (record p { workers = insert wc.id w p.workers })
put_back wc p w jobs slots = record {
  worker = w;
  found = lookup-insert_self wc.id w p.workers;
  same_jobs = jobs;
  same_slots = slots;
}

-- The pool takes every job that the connection takes.
pool_free :
    (wc : WorkerConn) (p : Gpu.Pool) (s : InSync wc p)
    → has_capacity wc ≡ true
    → Gpu.has_capacity s.worker ≡ true
unfolding has_capacity Gpu.has_capacity
pool_free wc p s h =
    rw (sym (length-keys wc.active_jobs s.worker.active_jobs s.same_jobs), sym s.same_slots) h

pub pool_assigned :
    (now : ℕ) (job_id : Text) (wc : WorkerConn) (p : Gpu.Pool) (s : InSync wc p)
    → has_capacity wc ≡ true
    → (Gpu.assign_job now wc.id job_id p).1 ≡ record p {
      workers =
          insert wc.id
            (record s.worker { active_jobs = insert job_id now s.worker.active_jobs })
            p.workers;
    }
unfolding Gpu.assign_job
pool_assigned now job_id wc p s h = rw (s.found, Gpu.assign_job, pool_free wc p s h)

pub assign-InSync :
    (now : ℕ) (job_id entry_id : Text) (wc : WorkerConn) (p : Gpu.Pool)
    → (assign_job now job_id entry_id wc).0 ≡ assign_ok
    → InSync wc p
    → InSync (assign_job now job_id entry_id wc).1 (Gpu.assign_job now wc.id job_id p).1
assign-InSync now job_id entry_id wc p e s =
    let a = assign_job-Assigned now job_id entry_id wc e in
    rw (a.conn_after, pool_assigned now job_id wc p s a.has_slot)
      (put_back
        (record wc {
          active_jobs =
              insert job_id (record { entry_id = entry_id; assigned_at = now }) wc.active_jobs;
        })
        p (record s.worker { active_jobs = insert job_id now s.worker.active_jobs })
        (keys-insert job_id (record { entry_id = entry_id; assigned_at = now }) now wc.active_jobs
          s.worker.active_jobs s.same_jobs)
        s.same_slots)

-- A job leaves the connection, whether it was there or not.
pub complete_job-conn :
    (job_id : Text) (wc : WorkerConn)
    → (complete_job job_id wc).1 ≡ record wc { active_jobs = erase job_id wc.active_jobs }
unfolding complete_job
complete_job-conn job_id wc = elim (Option-cases (lookup job_id wc.active_jobs)) [
  | inr (aj, e) ↦ rw (e, complete_job)
  | inl e ↦
      rw (e, complete_job)
        (ap (λ m. record wc { active_jobs = m }) (sym (erase-absent job_id wc.active_jobs e)))
]

pub complete-InSync :
    (job_id : Text) (wc : WorkerConn) (p : Gpu.Pool)
    → InSync wc p
    → InSync (complete_job job_id wc).1 (Gpu.complete_job wc.id job_id p).1
unfolding Gpu.complete_job
complete-InSync job_id wc p s =
    rw (complete_job-conn job_id wc, s.found, Gpu.complete_job)
      (put_back (record wc { active_jobs = erase job_id wc.active_jobs }) p
        (record s.worker { active_jobs = erase job_id s.worker.active_jobs })
        (keys-erase job_id wc.active_jobs s.worker.active_jobs s.same_jobs) s.same_slots)

pub none_of : {A : Type 0} (o : Option A) → is_some o ≡ false → o ≡ none
none_of none h = refl
none_of (some a) h = cc

pool_takes :
    (now : ℕ) (job_id : Text) (wc : WorkerConn) (p : Gpu.Pool) (s : InSync wc p)
    → has_capacity wc ≡ true
    → (Gpu.assign_job now wc.id job_id p).0 ≡ none
unfolding Gpu.assign_job
pool_takes now job_id wc p s h = rw (s.found, Gpu.assign_job, pool_free wc p s h)

-- An assignment that both take back leaves both as they were.
pub complete-assign :
    (now : ℕ) (job_id entry_id : Text) (wc : WorkerConn) (p : Gpu.Pool)
    → (assign_job now job_id entry_id wc).0 ≡ assign_ok
    → InSync wc p
    → ((complete_job job_id (assign_job now job_id entry_id wc).1).1 ≡ wc)
      × ((Gpu.complete_job wc.id job_id (Gpu.assign_job now wc.id job_id p).1).1 ≡ p)
complete-assign now job_id entry_id wc p e s =
    let a = assign_job-Assigned now job_id entry_id wc e in
    let m : Assoc Text ActiveJob = wc.active_jobs in
    let job : ActiveJob = record { entry_id = entry_id; assigned_at = now } in
    let absent : lookup job_id s.worker.active_jobs ≡ none =
      none_of _
        (sym (is_some-lookup-keys job_id m s.worker.active_jobs s.same_jobs) ∙ rw (a.is_new)) in
    (
      rw (a.conn_after, complete_job-conn)
          (ap (λ n. record wc { active_jobs = n }) (erase-insert job_id job m a.is_new)),
      ap (λ x. x.1)
          (complete_job-assign_job now wc.id job_id p s.worker
            (pool_takes now job_id wc p s a.has_slot) s.found absent),
    )
