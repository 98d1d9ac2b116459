-- ===== src/Router/Race/Tests.antt =====
-- internal/router/wshandler.go: a worker with one slot, whose job is completed while another comes.
use auxot.Common.{◌≢◌, true, false, ◌≡◌, refl, some, none, [], ◌∷◌, List, codes, text_comparable}
use auxot.Common.Assoc.{lookup, insert, erase}
use auxot.Common.Int.{pos}
use auxot.Gpu
use auxot.Router.Conn.{WorkerConn, assign_job, complete_job, has_capacity}
use auxot.Router.Conn.Slots.{InSync}
use auxot.Router.Race.{
  start, dispatches, completes, dispatch_turn, complete_turn, after_assign, Overlap, Turn,
  past_assign, past_complete, take_turns,
}
use auxot.Router.Race.Lost.{take_turns-lost}
use auxot.Router.Race.Kept.{take_turns-InSync}

abbrev one_slot : WorkerConn
one_slot = record {
  id = codes "w1";
  active_jobs = (codes "j1", record { entry_id = codes "e1"; assigned_at = 5 }) ∷ [];
  max_slots = pos 1;
}

abbrev worker : Gpu.Worker
worker = record {
  id = codes "w1";
  capabilities = record {
    backend = codes "cuda";
    model = codes "m";
    ctx_size = pos 4096;
    vram_gb = 0;
    parameters = codes "7B";
    total_slots = pos 1;
  };
  active_jobs = (codes "j1", 5) ∷ [];
  max_slots = pos 1;
  connected_at = 0;
  last_heartbeat = 0;
}

abbrev pool : Gpu.Pool
pool = record { workers = (codes "w1", worker) ∷ [] }

abbrev overlap : Overlap
overlap = record { now = 7; job_id = codes "j2"; entry_id = codes "e2"; completed_id = codes "j1" }

pool-InSync : InSync one_slot pool
unfolding lookup
pool-InSync = record { worker = worker; found = refl; same_jobs = refl; same_slots = refl }

take_turns-lost_example :
    (turns : List Turn) × (let s = take_turns overlap turns (start one_slot pool) in
      (s.dispatching ≡ past_assign)
      × (s.completing ≡ past_complete)
      × (lookup (codes "j2") s.conn.active_jobs
          ≡ some (record { entry_id = codes "e2"; assigned_at = 7 }))
      × ((w : Gpu.Worker) × (lookup (codes "w1") s.pool.workers ≡ some w)
          × (lookup (codes "j2") w.active_jobs ≡ none)))
unfolding lookup
take_turns-lost_example = take_turns-lost overlap one_slot pool pool-InSync refl refl refl

-- The same worker with two slots.
abbrev two_slots : WorkerConn
two_slots = record one_slot { max_slots = pos 2 }

abbrev wide_pool : Gpu.Pool
wide_pool = record { workers = (codes "w1", record worker { max_slots = pos 2 }) ∷ [] }

wide_pool-InSync : InSync two_slots wide_pool
unfolding lookup
wide_pool-InSync = record {
  worker = record worker { max_slots = pos 2 };
  found = refl;
  same_jobs = refl;
  same_slots = refl;
}

abbrev crossed : List Turn
crossed = completes ∷ dispatches ∷ dispatches ∷ completes ∷ []

distinct : codes "j1" ≢ codes "j2"
distinct e = let no : false ≡ true = (text_comparable.equal_iff (codes "j1") (codes "j2")).1 e in cc

take_turns-InSync_example :
    let s = take_turns overlap crossed (start two_slots wide_pool) in
    (s.conn.active_jobs
      ≡ insert
          (codes "j2")
          (record { entry_id = codes "e2"; assigned_at = 7 })
          (erase (codes "j1") two_slots.active_jobs))
    × InSync s.conn s.pool
unfolding lookup take_turns dispatch_turn complete_turn after_assign assign_job complete_job erase
    has_capacity
take_turns-InSync_example =
    take_turns-InSync overlap two_slots wide_pool crossed wide_pool-InSync refl refl distinct refl
      refl
