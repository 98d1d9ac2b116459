-- ===== src/Gpu/Tests.antt =====
-- pkg/gpu/pool.go on concrete pools: runs, and the pool's theorems at inputs that meet their
-- hypotheses.
use auxot.Common.{
  ◌≤◌, ◌≡◌, refl, subst, ◌⊎◌, inl, inr, true, false, some, List, [], ◌∷◌, arith, length, Text,
  codes, text_comparable,
}
use auxot.Common.Assoc.{lookup, insert, IsMap, Each-nil, Each-cons}
use auxot.Common.Int.{ℤ, pos, ◌+ℤ◌, ◌-ℤ◌, wrap_int}
use auxot.Gpu.{
  Pool, Worker, Capabilities, has_capacity, new_pool, add, heartbeat, assign_job, select_worker,
  total_capacity, dead_workers, worker_ids, snapshot,
}
use auxot.Gpu.Invariant.{IsPool, Call, adds, heartbeats, assigns, step, run, run-new_pool-IsPool}
use auxot.Gpu.Load.{select_worker_least}
use auxot.Gpu.Bounds.{AllWithin}

abbrev caps : ℤ → Capabilities
caps slots = record {
  backend = codes "llama.cpp";
  model = codes "qwen";
  ctx_size = pos 4096;
  vram_gb = 0;
  parameters = [];
  total_slots = slots;
}

abbrev worker_a : Worker
worker_a = record {
  id = codes "a";
  capabilities = caps (pos 2);
  active_jobs = (codes "j1", 5) ∷ [];
  max_slots = pos 2;
  connected_at = 1;
  last_heartbeat = 10;
}

abbrev worker_b : Worker
worker_b = record {
  id = codes "b";
  capabilities = caps (pos 1);
  active_jobs = [];
  max_slots = pos 1;
  connected_at = 2;
  last_heartbeat = 50;
}

abbrev two_workers : Pool
two_workers = record { workers = (codes "a", worker_a) ∷ (codes "b", worker_b) ∷ [] }

abbrev history : List Call
history =
    adds 1 (codes "a") (caps (pos 2)) (pos 2)
    ∷ adds 2 (codes "b") (caps (pos 1)) (pos 1)
    ∷ assigns 5 (codes "a") (codes "j1")
    ∷ heartbeats 10 (codes "a")
    ∷ heartbeats 50 (codes "b")
    ∷ []

two_workers_reached : run new_pool history ≡ two_workers
unfolding run step new_pool add assign_job heartbeat has_capacity lookup insert
two_workers_reached = refl

least_loaded : select_worker two_workers ≡ codes "b"
unfolding select_worker has_capacity
least_loaded = refl

free_total : total_capacity two_workers ≡ pos 2
unfolding total_capacity wrap_int ◌+ℤ◌ ◌-ℤ◌
free_total = refl

seen_dead : dead_workers 40 20 two_workers ≡ codes "a" ∷ []
unfolding dead_workers
seen_dead = refl

listed : worker_ids two_workers ≡ codes "a" ∷ codes "b" ∷ []
unfolding worker_ids
listed = refl

snapshot_jobs : length (snapshot two_workers) ≡ 2
unfolding snapshot
snapshot_jobs = refl

two_workers-IsMap : IsMap two_workers.workers
unfolding lookup
two_workers-IsMap = (refl, (refl, tt))

two_workers-IsPool : IsPool two_workers
two_workers-IsPool = subst IsPool two_workers_reached (run-new_pool-IsPool history)

two_workers-AllWithin : AllWithin two_workers
two_workers-AllWithin =
    Each-cons _ _ _ _ (inr (omega arith)) (Each-cons _ _ _ _ (inl refl) (Each-nil _))

select_worker_least_example :
    ((select_worker two_workers ≡ [])
      × ((j : Text) (v : Worker) → lookup j two_workers.workers ≡ some v → has_capacity v ≡ false))
    ⊎ ((w : Worker) × (lookup (select_worker two_workers) two_workers.workers ≡ some w)
        × (has_capacity w ≡ true)
        × ((j : Text) (v : Worker)
            → lookup j two_workers.workers ≡ some v
            → has_capacity v ≡ true
            → length w.active_jobs ≤ length v.active_jobs))
select_worker_least_example = select_worker_least two_workers two_workers-IsMap
