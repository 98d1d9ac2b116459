-- ===== src/Router/Race/Phases.antt =====
-- internal/router/wshandler.go: the jobs of a connection and of the pool's worker between the methods
-- that dispatchToWorker and handleComplete call.
use auxot.Common.{ℕ, ◌≡◌, refl, ◌≤◌, false, none, Text, text_comparable, length, arith}
use auxot.Common.Assoc.{
  Assoc, lookup, insert, erase, length-erase, lookup-erase_absent, erase-insert_other,
}
use auxot.Router.Conn.{ActiveJob}
use auxot.Router.Race.{
  Overlap, Dispatching, before_assign, before_pool_assign, past_assign, Completing, before_complete,
  before_pool_complete, past_complete,
}

-- The jobs of the connection and of the pool's worker when the two goroutines have come so far.
unfoldable pub conn_freed : Completing → Text → Assoc Text ActiveJob → Assoc Text ActiveJob
conn_freed before_complete j m = m
conn_freed before_pool_complete j m = erase j m
conn_freed past_complete j m = erase j m

unfoldable pub conn_taken : Dispatching → Overlap → Assoc Text ActiveJob → Assoc Text ActiveJob
conn_taken before_assign o m = m
conn_taken before_pool_assign o m =
    insert o.job_id (record { entry_id = o.entry_id; assigned_at = o.now }) m
conn_taken past_assign o m =
    insert o.job_id (record { entry_id = o.entry_id; assigned_at = o.now }) m

unfoldable pub pool_freed : Completing → Text → Assoc Text ℕ → Assoc Text ℕ
pool_freed before_complete j n = n
pool_freed before_pool_complete j n = n
pool_freed past_complete j n = erase j n

unfoldable pub pool_taken : Dispatching → Overlap → Assoc Text ℕ → Assoc Text ℕ
pool_taken before_assign o n = n
pool_taken before_pool_assign o n = n
pool_taken past_assign o n = insert o.job_id o.now n

length-erase_le : {V : Type 0} (j : Text) (m : Assoc Text V) → length (erase j m) ≤ length m
length-erase_le j m = ground (arith, length-erase j m)

pub length-conn_freed :
    (c : Completing) (j : Text) (m : Assoc Text ActiveJob) → length (conn_freed c j m) ≤ length m
unfolding conn_freed
length-conn_freed before_complete j m = omega arith
length-conn_freed before_pool_complete j m = length-erase_le j m
length-conn_freed past_complete j m = length-erase_le j m

pub length-pool_freed :
    (c : Completing) (j : Text) (n : Assoc Text ℕ) → length (pool_freed c j n) ≤ length n
unfolding pool_freed
length-pool_freed before_complete j n = omega arith
length-pool_freed before_pool_complete j n = omega arith
length-pool_freed past_complete j n = length-erase_le j n

pub lookup-conn_freed :
    (c : Completing) (k j : Text) (m : Assoc Text ActiveJob)
    → lookup k m ≡ none
    → lookup k (conn_freed c j m) ≡ none
unfolding conn_freed
lookup-conn_freed before_complete k j m h = h
lookup-conn_freed before_pool_complete k j m h = lookup-erase_absent k j m h
lookup-conn_freed past_complete k j m h = lookup-erase_absent k j m h

pub erase-conn_taken :
    (d : Dispatching) (o : Overlap) (m : Assoc Text ActiveJob)
    → text_comparable.equal o.completed_id o.job_id ≡ false
    → erase o.completed_id (conn_taken d o m) ≡ conn_taken d o (erase o.completed_id m)
unfolding conn_taken
erase-conn_taken before_assign o m h = refl
erase-conn_taken before_pool_assign o m h = erase-insert_other o.job_id o.completed_id _ m h
erase-conn_taken past_assign o m h = erase-insert_other o.job_id o.completed_id _ m h

pub erase-pool_taken :
    (d : Dispatching) (o : Overlap) (n : Assoc Text ℕ)
    → text_comparable.equal o.completed_id o.job_id ≡ false
    → erase o.completed_id (pool_taken d o n) ≡ pool_taken d o (erase o.completed_id n)
unfolding pool_taken
erase-pool_taken before_assign o n h = refl
erase-pool_taken before_pool_assign o n h = refl
erase-pool_taken past_assign o n h = erase-insert_other o.job_id o.completed_id _ n h
