-- ===== src/Queue/Sweeper.antt =====
-- pkg/queue/sweeper.go: entries that dead consumers hold go to live ones.
pub mod Pending
pub mod Sweep
pub mod Alive
use auxot.Common.{
  ℕ, zero, suc, ◌+◌, ◌%◌, ◌≡◌, refl, Option, none, some, List, [], ◌∷◌, ◌++◌, Text, codes, Bool,
  true, false, text_comparable, nat_beq, length, get_or, if◌then◌else◌,
}
use auxot.Common.Assoc.{Assoc}
use auxot.Queue.Redis.{Redis, Reply, ok, failed, Failure, XPending}
use auxot.Queue.Jobs.{JobQueue, Result, returned, error}
use auxot.Queue.Beats.{Heartbeat, is_alive, live_worker_ids}

module _ (r : Redis) where
  -- A failure is only logged.
  unfoldable pub delete_consumer : JobQueue → Text → r.Db → r.Db
  delete_consumer q consumer db = (r.xgroup_delconsumer q.stream_key q.group_name consumer db).1

  -- Steps 2 and 3: the entries change hands, then the dead consumer goes.
  claim_entries : JobQueue → Text → Text → List Text → r.Db → r.Db
  claim_entries q dead_consumer target_consumer ids db =
      let (claim, db') = r.xclaim q.stream_key q.group_name target_consumer 0 ids db in
      elim claim [ failed _ ↦ db' | ok _ ↦ delete_consumer q dead_consumer db' ]

  unfoldable pub reclaim_from_consumer : JobQueue → Text → Text → r.Db → r.Db
  unfolding claim_entries
  reclaim_from_consumer q dead_consumer target_consumer db =
      let (reply, db') =
        r.xpending_ext q.stream_key q.group_name (codes "-") (codes "+") 100 dead_consumer db in
      elim reply [
        | failed _ ↦ db'
        | ok ids ↦ elim ids [
          | [] ↦ delete_consumer q dead_consumer db'
          | id ∷ rest ↦ claim_entries q dead_consumer target_consumer (id ∷ rest) db'
        ]
      ]

  -- The consumers of the summary that hold entries and have no heartbeat.
  find_dead : Heartbeat → Assoc Text ℕ → r.Db → List Text × r.Db
  find_dead h [] db = ([], db)
  find_dead h ((consumer, count) ∷ consumers) db =
      let skip = find_dead h consumers db in
      let (alive, db') = is_alive r h consumer db in
      let (dead, db'') = find_dead h consumers db' in
      if nat_beq count 0 then skip else elim alive [
        | error _ ↦ (dead, db'')
        | returned up ↦ if up then (dead, db'') else (consumer ∷ dead, db'')
      ]

  -- Round robin over the live workers, from the index `i` on.
  reclaim_all : JobQueue → List Text → ℕ → List Text → r.Db → r.Db
  reclaim_all q live i [] db = db
  reclaim_all q live i (dead_consumer ∷ dead) db =
      let target : Text = get_or live (i % length live) [] in
      reclaim_all q live (i + 1) dead (reclaim_from_consumer q dead_consumer target db)

  -- The second half of a sweep: the search for live workers, of at most `fuel` calls of SCAN, and
  -- the loop over the dead consumers.
  reclaim_dead : ℕ → JobQueue → Heartbeat → List Text → r.Db → r.Db
  unfolding reclaim_all
  reclaim_dead fuel q h [] db = db
  reclaim_dead fuel q h (d ∷ ds) db =
      let (found, db') = live_worker_ids r fuel h db in
      elim found [
        | none ↦ db'
        | some result ↦ elim result [
          | error _ ↦ db'
          | returned live ↦ elim live [ [] ↦ db' | l ∷ ls ↦ reclaim_all q (l ∷ ls) 0 (d ∷ ds) db' ]
        ]
      ]

  unfoldable pub sweep : ℕ → JobQueue → Heartbeat → r.Db → r.Db
  unfolding find_dead reclaim_dead
  sweep fuel q h db =
      let (reply, db') = r.xpending q.stream_key q.group_name db in
      elim reply [
        | failed _ ↦ db'
        | ok summary ↦
            let (dead, db'') = find_dead h summary.consumers db' in
            if nat_beq summary.count 0 then db' else reclaim_dead fuel q h dead db''
      ]
