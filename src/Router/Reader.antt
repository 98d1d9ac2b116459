-- ===== src/Router/Reader.antt =====
-- internal/router/wshandler.go: jobReaderLoop, one round at a time. The waits are values, and a
-- round takes place at one time; the loop ends between rounds, when the connection is closed.
use auxot.Common.{
  ℕ, ◌*◌, ◌^◌, Bool, true, false, ◌||◌, List, [], ◌∷◌, Text, length, ltb, if◌then◌else◌,
}
use auxot.Common.Int.{pos}
use auxot.Protocol.{Json}
use auxot.Queue.Redis.{Redis}
use auxot.Queue.Jobs.{StreamEntry, returned, error, read, read_pending, new_blocking_reader}
use auxot.Queue.Tokens.{EventCodec}
use auxot.Router.Conn.{has_capacity}
use auxot.Router.Dispatch.{
  WsHandler, World, DispatchResult, dispatched, already_assigned, worker_full, dispatch_failed,
  dispatch_to_worker, expire_stale_jobs,
}

-- How long a round waits before the next one: for a slot, after an error of Redis, after pending
-- entries that could not be sent, or not at all.
pub data Pause : Type 0 where
  for_capacity after_error after_pending no_pause : Pause

unfoldable pub pause_time : Pause → ℕ
pause_time for_capacity = 500 * 10 ^ 6
pause_time after_error = 10 ^ 9
pause_time after_pending = 2 * 10 ^ 9
pause_time no_pause = 0

module _ (r : Redis) (json : Json) (codec : EventCodec) (h : WsHandler) where
  is_dispatched : DispatchResult → Bool
  is_dispatched dispatched = true
  is_dispatched already_assigned = false
  is_dispatched worker_full = false
  is_dispatched dispatch_failed = false

  -- The loop over the entries; the `break` at a full worker leaves only the switch. Whether any job
  -- was sent, and the state.
  unfoldable pub dispatch_each : ℕ → (Text → Bool) → List StreamEntry → World r → Bool × World r
  unfolding is_dispatched
  dispatch_each now delivers [] w = (false, w)
  dispatch_each now delivers (entry ∷ entries) w =
      let (result, w') = dispatch_to_worker r json codec h now (delivers entry.id) entry w in
      let (any, w'') = dispatch_each now delivers entries w' in (is_dispatched result || any, w'')

  -- New entries, read on the worker's own Redis connection.
  unfoldable pub read_new : ℕ → (Text → Bool) → World r → Pause × World r
  unfolding dispatch_each
  read_new now delivers w =
      let blocking_reader = new_blocking_reader r h.job_queue in
      let (result, db') = read r blocking_reader w.conn.id (pos (30 * 10 ^ 9)) w.db in
      let w' : World r = record w { db = db' } in
      elim result [
        | error _ ↦ (after_error, w')
        | returned entries ↦ (no_pause, (dispatch_each now delivers entries w').1)
      ]

  unfoldable pub read_round : ℕ → (Text → Bool) → World r → Pause × World r
  unfolding dispatch_each read_new
  read_round now delivers w =
      let (result, db') = read_pending r h.job_queue w.conn.id w.db in
      let w' : World r = record w { db = db' } in
      elim result [
        | error _ ↦ (after_error, w')
        | returned entries ↦
            let (any, w'') = dispatch_each now delivers entries w' in
            let fresh = read_new now delivers w' in
            if ltb 0 (length entries)
            then ((if any then no_pause else after_pending), w'')
            else fresh
      ]

  unfoldable pub job_reader_round : ℕ → (Text → Bool) → World r → Pause × World r
  unfolding read_round
  job_reader_round now delivers w =
      let round = read_round now delivers (expire_stale_jobs r json codec h now w) in
      if has_capacity w.conn then round else (for_capacity, w)
