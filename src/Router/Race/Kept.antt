-- ===== src/Router/Race/Kept.antt =====
-- internal/router/wshandler.go: a worker with a free slot, whose job is completed while another comes.
use auxot.Common.{
  ℕ, ◌≡◌, ◌≢◌, refl, sym, ap, ◌∙◌, true, false, none, List, [], ◌∷◌, Text, text_comparable, length,
  arith, inl, inr, Bool-cases,
}
use auxot.Common.Assoc.{
  Assoc, lookup, insert, erase, lookup-insert_self, insert-insert, insert-of_lookup,
}
use auxot.Common.Keys.{length-keys, keys-insert, keys-erase}
use auxot.Common.Int.{pos, ltb_ℤ, leb_ℤ}
use auxot.Gpu
use auxot.Router.Conn.{WorkerConn, assign_job, has_capacity}
use auxot.Router.Conn.Slots.{InSync, complete_job-conn}
use auxot.Router.Race.Phases.{
  conn_freed, conn_taken, pool_freed, pool_taken, length-conn_freed, length-pool_freed,
  lookup-conn_freed, erase-conn_taken, erase-pool_taken,
}
use auxot.Router.Race.{
  start, Racing, Overlap, Turn, dispatches, completes, Dispatching, before_assign,
  before_pool_assign, past_assign, Completing, before_complete, before_pool_complete, past_complete,
  take_turns, dispatch_turn, complete_turn, after_assign,
}

module _ (o : Overlap) (wc : WorkerConn) (p : Gpu.Pool) (s : InSync wc p) where
  pool_with : Assoc Text ℕ → Gpu.Pool
  pool_with n = record p { workers = insert wc.id (record s.worker { active_jobs = n }) p.workers }

  -- The state when the two have come so far, whatever turns have brought them there.
  state : Dispatching → Completing → Racing
  state d c = record {
    conn = record wc { active_jobs = conn_taken d o (conn_freed c o.completed_id wc.active_jobs) };
    pool = pool_with (pool_taken d o (pool_freed c o.completed_id s.worker.active_jobs));
    dispatching = d;
    completing = c;
  }

  start-state : start wc p ≡ state before_assign before_complete
  unfolding state pool_with conn_taken conn_freed pool_taken pool_freed
  start-state =
      ap
        (λ ws. record {
          conn = wc;
          pool = record p { workers = ws };
          dispatching = before_assign;
          completing = before_complete;
        })
        (sym (insert-of_lookup wc.id s.worker p.workers s.found))

  free_conn :
      (c : Completing)
      → has_capacity wc ≡ true
      → leb_ℤ wc.max_slots (pos (length (conn_freed c o.completed_id wc.active_jobs))) ≡ false
  unfolding has_capacity
  free_conn c free = ground (arith, length-conn_freed c o.completed_id wc.active_jobs)

  free_pool :
      (c : Completing)
      → has_capacity wc ≡ true
      → ltb_ℤ (pos (length (pool_freed c o.completed_id s.worker.active_jobs))) s.worker.max_slots
        ≡ true
  unfolding has_capacity
  free_pool c free =
      let same = length-keys wc.active_jobs s.worker.active_jobs s.same_jobs in
      let slots = s.same_slots in
      ground (arith, length-pool_freed c o.completed_id s.worker.active_jobs)

  pool_assigns :
      (n : Assoc Text ℕ)
      → ltb_ℤ (pos (length n)) s.worker.max_slots ≡ true
      → (Gpu.assign_job o.now wc.id o.job_id (pool_with n)).1 ≡ pool_with (insert o.job_id o.now n)
  unfolding pool_with Gpu.assign_job Gpu.has_capacity
  pool_assigns n free =
      rw
        (
          lookup-insert_self wc.id (record s.worker { active_jobs = n }) p.workers,
          Gpu.assign_job,
          Gpu.has_capacity,
          free,
        )
        (ap (λ ws. record p { workers = ws }) (insert-insert wc.id _ _ p.workers))

  pool_completes :
      (n : Assoc Text ℕ)
      → (Gpu.complete_job wc.id o.completed_id (pool_with n)).1 ≡ pool_with (erase o.completed_id n)
  unfolding pool_with Gpu.complete_job
  pool_completes n =
      rw
        (lookup-insert_self wc.id (record s.worker { active_jobs = n }) p.workers, Gpu.complete_job)
        (ap (λ ws. record p { workers = ws }) (insert-insert wc.id _ _ p.workers))

  distinct : o.completed_id ≢ o.job_id → text_comparable.equal o.completed_id o.job_id ≡ false
  distinct other = elim (Bool-cases (text_comparable.equal o.completed_id o.job_id)) [
    | inl same ↦
        let e = (text_comparable.equal_iff o.completed_id o.job_id).0 same in elim (other e) [ ]
    | inr differ ↦ differ
  ]

  dispatch_turn-state :
      (d : Dispatching) (c : Completing)
      → has_capacity wc ≡ true
      → lookup o.job_id wc.active_jobs ≡ none
      → (d' : Dispatching) × (dispatch_turn d o.now o.job_id o.entry_id (state d c) ≡ state d' c)
  unfolding dispatch_turn state conn_taken pool_taken after_assign assign_job Gpu.assign_job
      Gpu.has_capacity
  dispatch_turn-state before_assign c free new = (
    before_pool_assign,
    rw
        (
          lookup-conn_freed c o.job_id o.completed_id wc.active_jobs new,
          assign_job,
          free_conn c free,
        )
        refl,
  )
  dispatch_turn-state before_pool_assign c free new = (
    past_assign,
    ap (λ q. record (state past_assign c) { pool = q }) (pool_assigns _ (free_pool c free)),
  )
  dispatch_turn-state past_assign c free new = (past_assign, refl)

  complete_turn-state :
      (d : Dispatching) (c : Completing)
      → o.completed_id ≢ o.job_id
      → (c' : Completing) × (complete_turn c o.completed_id (state d c) ≡ state d c')
  unfolding complete_turn state conn_freed pool_freed Gpu.complete_job
  complete_turn-state d before_complete other = (
    before_pool_complete,
    ap (λ x. record (state d before_pool_complete) { conn = x })
        (complete_job-conn o.completed_id _
          ∙ ap (λ m. record wc { active_jobs = m })
              (erase-conn_taken d o wc.active_jobs (distinct other))),
  )
  complete_turn-state d before_pool_complete other = (
    past_complete,
    ap (λ q. record (state d past_complete) { pool = q })
        (pool_completes _
          ∙ ap pool_with (erase-pool_taken d o s.worker.active_jobs (distinct other))),
  )
  complete_turn-state d past_complete other = (past_complete, refl)

  take_turns-state :
      (turns : List Turn) (d : Dispatching) (c : Completing)
      → has_capacity wc ≡ true
      → lookup o.job_id wc.active_jobs ≡ none
      → o.completed_id ≢ o.job_id
      → (d' : Dispatching) × (c' : Completing) × (take_turns o turns (state d c) ≡ state d' c')
  unfolding take_turns state
  take_turns-state [] d c free new other = (d, c, refl)
  take_turns-state (dispatches ∷ turns) d c free new other =
      let (d1, turn) = dispatch_turn-state d c free new in
      let (d', c', rest) = take_turns-state turns d1 c free new other in
      (d', c', ap (take_turns o turns) turn ∙ rest)
  take_turns-state (completes ∷ turns) d c free new other =
      let (c1, turn) = complete_turn-state d c other in
      let (d', c', rest) = take_turns-state turns d c1 free new other in
      (d', c', ap (take_turns o turns) turn ∙ rest)

  state-InSync :
      InSync (state past_assign past_complete).conn (state past_assign past_complete).pool
  unfolding state pool_with conn_taken conn_freed pool_taken pool_freed
  state-InSync = record {
    worker = record s.worker {
      active_jobs = insert o.job_id o.now (erase o.completed_id s.worker.active_jobs);
    };
    found = lookup-insert_self wc.id _ p.workers;
    same_jobs =
        keys-insert o.job_id (record { entry_id = o.entry_id; assigned_at = o.now }) o.now
          (erase o.completed_id wc.active_jobs) (erase o.completed_id s.worker.active_jobs)
          (keys-erase o.completed_id wc.active_jobs s.worker.active_jobs s.same_jobs);
    same_slots = s.same_slots;
  }

pub take_turns-InSync :
    (o : Overlap) (wc : WorkerConn) (p : Gpu.Pool) (turns : List Turn)
    → InSync wc p
    → has_capacity wc ≡ true
    → lookup o.job_id wc.active_jobs ≡ none
    → o.completed_id ≢ o.job_id
    → (take_turns o turns (start wc p)).dispatching ≡ past_assign
    → (take_turns o turns (start wc p)).completing ≡ past_complete
    → ((take_turns o turns (start wc p)).conn.active_jobs
        ≡ insert o.job_id
            (record { entry_id = o.entry_id; assigned_at = o.now })
            (erase o.completed_id wc.active_jobs))
      × InSync (take_turns o turns (start wc p)).conn (take_turns o turns (start wc p)).pool
unfolding state conn_taken conn_freed
take_turns-InSync o wc p turns s free new other dispatched completed =
    let (d, c, path) =
      take_turns-state o wc p s turns before_assign before_complete free new other in
    let e = ap (take_turns o turns) (start-state o wc p s) ∙ path in
    let dp : d ≡ past_assign = sym (ap (λ x. x.dispatching) e) ∙ dispatched in
    let cp : c ≡ past_complete = sym (ap (λ x. x.completing) e) ∙ completed in
    let done : take_turns o turns (start wc p) ≡ state o wc p s past_assign past_complete =
      e ∙ ap (λ x. state o wc p s x c) dp ∙ ap (state o wc p s past_assign) cp in
    rw done (refl, state-InSync o wc p s)
