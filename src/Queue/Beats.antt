-- ===== src/Queue/Beats.antt =====
-- pkg/queue/heartbeat.go: a key for each live worker.
pub mod Laws
use auxot.Common.{
  ℕ, zero, suc, ◌+◌, ◌≡◌, refl, Option, none, some, List, [], ◌∷◌, ◌++◌, Text, codes, Bool, true,
  false, text_comparable, nat_beq, ltb, length, drop, if◌then◌else◌,
}
use auxot.Queue.Redis.{Redis, Reply, ok, failed, Failure}
use auxot.Queue.Jobs.{Result, returned, error, Error, refreshing, checking, removing, scanning}

pub record Heartbeat : Type 0 where
  pub prefix : Text
  pub ttl : ℕ

unfoldable pub key : Heartbeat → Text → Text
key h worker_id = h.prefix ++ (codes "heartbeat:" ++ worker_id)

-- The loop over one reply of SCAN: the part of each key behind the prefix.
pub worker_ids_of : ℕ → List Text → List Text
worker_ids_of prefix_len [] = []
worker_ids_of prefix_len (k ∷ ks) =
    let rest = worker_ids_of prefix_len ks in
    if ltb prefix_len (length k) then drop prefix_len k ∷ rest else rest

module _ (r : Redis) where
  unfoldable pub ping : Heartbeat → Text → r.Db → Result (Unit {0}) × r.Db
  ping h worker_id db =
      let (reply, db') = r.set (key h worker_id) (codes "1") h.ttl db in
      (elim reply [ ok _ ↦ returned tt | failed _ ↦ error refreshing ], db')

  unfoldable pub is_alive : Heartbeat → Text → r.Db → Result Bool × r.Db
  is_alive h worker_id db =
      let (reply, db') = r.exists (key h worker_id) db in
      (elim reply [ ok n ↦ returned (ltb 0 n) | failed _ ↦ error checking ], db')

  unfoldable pub remove : Heartbeat → Text → r.Db → Result (Unit {0}) × r.Db
  remove h worker_id db =
      let (reply, db') = r.del (key h worker_id) db in
      (elim reply [ ok _ ↦ returned tt | failed _ ↦ error removing ], db')

  -- The loop over the cursors of SCAN, for at most `fuel` calls; Redis ends an iteration with the
  -- cursor 0. `none` means that the calls ran out.
  scan_from : ℕ → Heartbeat → ℕ → List Text → r.Db → Option (Result (List Text)) × r.Db
  scan_from zero h cursor ids db = (none, db)
  scan_from (suc fuel) h cursor ids db =
      let prefix : Text = h.prefix ++ codes "heartbeat:" in
      let (reply, db') = r.scan cursor (h.prefix ++ codes "heartbeat:*") 100 db in
      elim reply [
        | failed _ ↦ (some (error scanning), db')
        | ok (keys, next_cursor) ↦
            let ids' : List Text = ids ++ worker_ids_of (length prefix) keys in
            let more = scan_from fuel h next_cursor ids' db' in
            if nat_beq next_cursor 0 then (some (returned ids'), db') else more
      ]

  unfoldable pub live_worker_ids : ℕ → Heartbeat → r.Db → Option (Result (List Text)) × r.Db
  unfolding scan_from worker_ids_of
  live_worker_ids fuel h db = scan_from fuel h 0 [] db
