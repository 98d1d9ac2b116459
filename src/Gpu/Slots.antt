-- ===== src/Gpu/Slots.antt =====
-- pkg/gpu/pool.go: the slots that jobs take and give back.
use auxot.Common.{
  ℕ, suc, ◌≡◌, sym, ap, ◌∙◌, inl, inr, true, none, some, [], ◌∷◌, arith, length, Text,
  text_comparable, Bool-cases, Option-cases, is_some, if◌then◌else◌,
}
use auxot.Common.Assoc.{
  Assoc, lookup, insert, erase, length-insert, length-erase, lookup-insert_self, insert-insert,
  insert-of_lookup, erase-insert,
}
use auxot.Common.Int.{
  ℤ, pos, wrap_int, ◌+ℤ◌, ◌-ℤ◌, int_laws, wrap_int-+ℤ, wrap_int-of_IsInt, parts_of_eq,
}
use auxot.Gpu.{
  Pool, Worker, at_capacity, has_capacity, assign_job, complete_job, with_job, without_job,
  add_capacity, total_capacity,
}

-- The free slots of all workers, in unbounded integers; less than nothing where a worker has more
-- jobs than slots.
unfoldable pub free_slots : Assoc Text Worker → ℤ
free_slots [] = pos 0
free_slots ((id, w) ∷ ws) = w.max_slots -ℤ pos (length w.active_jobs) +ℤ free_slots ws

+ℤ_zero : (a : ℤ) → a +ℤ pos 0 ≡ a
+ℤ_zero a = omega int_laws

zero_+ℤ : (a : ℤ) → pos 0 +ℤ a ≡ a
zero_+ℤ a = omega int_laws

+ℤ_assoc : (a b c : ℤ) → a +ℤ b +ℤ c ≡ a +ℤ (b +ℤ c)
+ℤ_assoc a b c = omega int_laws

add_capacity-free_slots :
    (ws : Assoc Text Worker) (total : ℤ)
    → add_capacity ws (wrap_int total) ≡ wrap_int (total +ℤ free_slots ws)
unfolding add_capacity free_slots
add_capacity-free_slots [] total = rw +ℤ_zero
add_capacity-free_slots ((id, w) ∷ ws) total =
    let slots : ℤ = w.max_slots -ℤ pos (length w.active_jobs) in
    rw (wrap_int-+ℤ total slots) (
      add_capacity-free_slots ws (total +ℤ slots)
      ∙ ap wrap_int (+ℤ_assoc total slots (free_slots ws)))

-- TotalCapacity is the sum of the workers' free slots, reduced to a machine integer, whatever
-- happens in between; a worker with more jobs than slots counts negatively.
pub total_capacity-free_slots : (p : Pool) → total_capacity p ≡ wrap_int (free_slots p.workers)
unfolding total_capacity
total_capacity-free_slots p =
    ap (add_capacity p.workers) (sym (wrap_int-of_IsInt (pos 0) (omega arith)))
    ∙ add_capacity-free_slots p.workers (pos 0)
    ∙ ap wrap_int (zero_+ℤ (free_slots p.workers))

free_slots-insert :
    (id : Text) (w v : Worker) (ws : Assoc Text Worker)
    → lookup id ws ≡ some w
    → free_slots (insert id v ws) +ℤ (w.max_slots -ℤ pos (length w.active_jobs))
      ≡ free_slots ws +ℤ (v.max_slots -ℤ pos (length v.active_jobs))
unfolding free_slots lookup insert
free_slots-insert id w v [] e = cc
free_slots-insert id w v ((j, x) ∷ ws) e = elim (Bool-cases (text_comparable.equal j id)) [
  | inl hit ↦ let same : x ≡ w = ground arith in rw (hit, same) (omega int_laws)
  | inr miss ↦
      let there : lookup id ws ≡ some w = rw miss at e in
      rw miss (omega (int_laws, parts_of_eq (free_slots-insert id w v ws there)))
]

abbrev slots_of : Worker → ℤ
slots_of w = w.max_slots -ℤ pos (length w.active_jobs)

-- What a successful AssignJob does.
assigned :
    (now : ℕ) (worker_id job_id : Text) (p : Pool) (w : Worker)
    → (assign_job now worker_id job_id p).0 ≡ none
    → lookup worker_id p.workers ≡ some w
    → assign_job now worker_id job_id p
      ≡ (none, record p { workers = insert worker_id (with_job now job_id w) p.workers })
unfolding assign_job
assigned now worker_id job_id p w h e = elim (Bool-cases (has_capacity w)) [
  | inl free ↦ rw (e, assign_job, free)
  | inr full ↦ let failed : some at_capacity ≡ none = rw (e, assign_job, full) at h in cc
]

-- What CompleteJob does to a worker that is there.
completed :
    (worker_id job_id : Text) (p : Pool) (w : Worker)
    → lookup worker_id p.workers ≡ some w
    → complete_job worker_id job_id p ≡ (
      is_some (lookup job_id w.active_jobs),
      record p { workers = insert worker_id (without_job job_id w) p.workers },
    )
unfolding complete_job
completed worker_id job_id p w e = rw (e, complete_job)

slots-with_job :
    (now : ℕ) (job_id : Text) (w : Worker)
    → slots_of (with_job now job_id w)
        +ℤ (if is_some (lookup job_id w.active_jobs) then pos 0 else pos 1)
      ≡ slots_of w
unfolding with_job
slots-with_job now job_id w = elim (Bool-cases (is_some (lookup job_id w.active_jobs))) [
  | inl held ↦
      let same : length (insert job_id now w.active_jobs) ≡ length w.active_jobs =
        rw held at (length-insert job_id now w.active_jobs) in
      rw (held, same) (omega int_laws)
  | inr new ↦
      let more : length (insert job_id now w.active_jobs) ≡ suc (length w.active_jobs) =
        rw new at (length-insert job_id now w.active_jobs) in
      rw (new, more) (omega int_laws)
]

slots-without_job :
    (job_id : Text) (w : Worker)
    → slots_of (without_job job_id w)
      ≡ slots_of w +ℤ (if is_some (lookup job_id w.active_jobs) then pos 1 else pos 0)
unfolding without_job
slots-without_job job_id w = elim (Bool-cases (is_some (lookup job_id w.active_jobs))) [
  | inl held ↦
      let less : length w.active_jobs ≡ suc (length (erase job_id w.active_jobs)) =
        rw held at (length-erase job_id w.active_jobs) in
      rw (held, less) (omega int_laws)
  | inr new ↦
      let same : length w.active_jobs ≡ length (erase job_id w.active_jobs) =
        rw new at (length-erase job_id w.active_jobs) in
      rw (new, same) (omega int_laws)
]

-- Assigning a job that the worker does not hold yet takes exactly one free slot of the pool;
-- assigning one that it holds already takes none.
pub free_slots-assign_job :
    (now : ℕ) (worker_id job_id : Text) (p : Pool) (w : Worker)
    → (assign_job now worker_id job_id p).0 ≡ none
    → lookup worker_id p.workers ≡ some w
    → free_slots (assign_job now worker_id job_id p).1.workers
        +ℤ (if is_some (lookup job_id w.active_jobs) then pos 0 else pos 1)
      ≡ free_slots p.workers
free_slots-assign_job now worker_id job_id p w h e = rw (assigned now worker_id job_id p w h e) (
    omega (
      int_laws,
      parts_of_eq (free_slots-insert worker_id w (with_job now job_id w) p.workers e),
      parts_of_eq (slots-with_job now job_id w),
    ))

-- Completing a job gives exactly one slot back if the worker held the job, and none if not.
pub free_slots-complete_job :
    (worker_id job_id : Text) (p : Pool)
    → free_slots (complete_job worker_id job_id p).1.workers
      ≡ free_slots p.workers +ℤ (if (complete_job worker_id job_id p).0 then pos 1 else pos 0)
unfolding complete_job
free_slots-complete_job worker_id job_id p = elim (Option-cases (lookup worker_id p.workers)) [
  | inl gone ↦ rw (gone, complete_job) (sym (+ℤ_zero _))
  | inr (w, e) ↦ rw (completed worker_id job_id p w e) (
      omega (
        int_laws,
        parts_of_eq (free_slots-insert worker_id w (without_job job_id w) p.workers e),
        parts_of_eq (slots-without_job job_id w),
      ))
]

-- Completing a job undoes its assignment: the pool is as it was before, if the worker did not hold
-- the job already.
pub complete_job-assign_job :
    (now : ℕ) (worker_id job_id : Text) (p : Pool) (w : Worker)
    → (assign_job now worker_id job_id p).0 ≡ none
    → lookup worker_id p.workers ≡ some w
    → lookup job_id w.active_jobs ≡ none
    → complete_job worker_id job_id (assign_job now worker_id job_id p).1 ≡ (true, p)
unfolding without_job with_job
complete_job-assign_job now worker_id job_id p w h e absent =
    let q = record p { workers = insert worker_id (with_job now job_id w) p.workers } in
    rw (
      assigned now worker_id job_id p w h e,
      completed worker_id job_id q (with_job now job_id w) (lookup-insert_self worker_id _ _),
      lookup-insert_self job_id now w.active_jobs,
      insert-insert worker_id (with_job now job_id w) _ p.workers,
      erase-insert job_id now w.active_jobs absent,
      insert-of_lookup worker_id w p.workers e,
    )
