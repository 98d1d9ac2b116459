-- ===== src/Queue/Tests.antt =====
-- pkg/queue on the Redis in memory: runs, and the package's theorems at inputs that meet their
-- hypotheses.
use auxot.Common.{
  ℕ, zero, suc, ◌≤◌, ◌≡◌, refl, ◌≢◌, ◌⊎◌, true, false, none, some, List, [], ◌∷◌, arith, Text,
  codes, text_comparable, take,
}
use auxot.Common.Assoc.{lookup, insert, IsMap}
use auxot.Common.Int.{pos}
use auxot.Queue.Redis.{Redis, Documented, Pel, held, claimed, dropped}
use auxot.Queue.Memory.{Store, memory, memory-Documented}
use auxot.Queue.Jobs.{
  JobQueue, StreamEntry, returned, enqueue, read, entry_of, parse_stream_results, parse_xmessages,
  ensure_group, claim_pending, read_pending, len, new_blocking_reader,
}
use auxot.Queue.Tokens.{TokenStream, TokenEvent, EventCodec, read_tokens, stream_key}
use auxot.Queue.Jobs.Laws.{read-enqueue}
use auxot.Queue.Beats.{Heartbeat, key, ping, is_alive, remove, live_worker_ids}
use auxot.Queue.Sweeper.{reclaim_from_consumer, sweep, delete_consumer}
use auxot.Queue.Sweeper.Sweep.{reclaim_loses_none, reclaim_loses_rest}

abbrev jobs_key : Text
jobs_key = codes "auxot:jobs"

abbrev queue : JobQueue
queue = record { stream_key = jobs_key; group_name = codes "workers" }

abbrev redis : Redis
redis = memory jobs_key

abbrev beats : Heartbeat
beats = record { prefix = codes "auxot:"; ttl = 10 }

abbrev documented : Documented redis jobs_key (codes "workers")
documented = memory-Documented jobs_key (codes "workers")

abbrev fresh : Store
fresh = record { next = 0; pel = []; queue = []; log = []; beats = [] }

-- Two workers hold an entry each; only the second has a heartbeat.
abbrev two_held : Store
two_held = record fresh {
  pel = (codes "e1", codes "w1") ∷ (codes "e2", codes "w2") ∷ [];
  beats = codes "auxot:heartbeat:w2" ∷ [];
}

two_held-IsMap : IsMap two_held.pel
unfolding lookup
two_held-IsMap = (refl, (refl, tt))

w2_not_w1 : ◌≢◌ {A = Text} (codes "w2") (codes "w1")
w2_not_w1 e = ground (arith, e)

after_sweep :
    (sweep redis 1 queue beats two_held).pel
    ≡ (codes "e1", codes "w2") ∷ (codes "e2", codes "w2") ∷ []
unfolding sweep reclaim_from_consumer delete_consumer is_alive live_worker_ids key held claimed
    dropped insert
after_sweep = refl

idle_stream : (ensure_group redis queue fresh).0 ≡ returned tt
unfolding ensure_group
idle_stream = refl

nothing_claimed : (claim_pending redis queue (codes "w1") 60 fresh).0 ≡ returned []
unfolding claim_pending parse_xmessages
nothing_claimed = refl

nothing_pending : (read_pending redis queue (codes "w1") fresh).0 ≡ returned []
unfolding read_pending
nothing_pending = refl

empty_len : (len redis (new_blocking_reader redis queue) fresh).0 ≡ returned 0
unfolding len new_blocking_reader
empty_len = refl

beat_removed :
    (is_alive redis beats (codes "w2") (remove redis beats (codes "w2") two_held).1).0
    ≡ returned false
unfolding is_alive remove key
beat_removed = refl

beat_sent :
    (is_alive redis beats (codes "w1") (ping redis beats (codes "w1") two_held).1).0 ≡ returned true
unfolding is_alive ping key
beat_sent = refl

read-enqueue_example :
    let db' = (enqueue redis queue (codes "j1") (codes "{}") fresh).1 in
    let after = (read redis queue (codes "w1") (pos 30) db').1 in
    (◌≡◌ {A = List StreamEntry}
      (record { id = 0 ∷ []; payload = record { job_id = codes "j1"; body = codes "{}" } } ∷ [])
      (record { id = 0 ∷ []; payload = record { job_id = codes "j1"; body = codes "{}" } } ∷ []))
    × (redis.waiting jobs_key (codes "workers") after ≡ [])
    × (redis.pending jobs_key (codes "workers") after ≡ (0 ∷ [], codes "w1") ∷ [])
unfolding enqueue read parse_stream_results parse_xmessages entry_of lookup
read-enqueue_example =
    read-enqueue redis queue documented (codes "j1") (codes "{}") (0 ∷ []) (codes "w1") (pos 30)
      fresh
      (record { id = 0 ∷ []; payload = record { job_id = codes "j1"; body = codes "{}" } } ∷ [])
      refl refl refl (λ e. cc)

reclaim_loses_none_example :
    let after =
      redis.pending jobs_key
        (codes "workers")
        (reclaim_from_consumer redis queue (codes "w1") (codes "w2") two_held) in
    (lookup (codes "e1") after ≡ some (codes "w1"))
    ⊎ (lookup (codes "e1") after ≡ some (codes "w2"))
unfolding lookup held
reclaim_loses_none_example =
    reclaim_loses_none redis queue documented (codes "w1") (codes "w2") (codes "e1") two_held
      two_held-IsMap refl (omega arith) w2_not_w1

-- A consumer with 101 entries.
abbrev many : ℕ → Pel
many zero = []
many (suc n) = (n ∷ [], codes "w1") ∷ many n

many_fresh : (n k : ℕ) → n ≤ k → lookup (k ∷ []) (many n) ≡ none
unfolding lookup
many_fresh zero k h = refl
many_fresh (suc n) k h = ground (arith, many_fresh n k)

many-IsMap : (n : ℕ) → IsMap (many n)
many-IsMap zero = tt
many-IsMap (suc n) = (many_fresh n n (omega arith), many-IsMap n)

abbrev crowded : Store
crowded = record fresh { pel = many 101 }

reclaim_loses_rest_example :
    lookup (0 ∷ []) (
      redis.pending jobs_key
        (codes "workers")
        (reclaim_from_consumer redis queue (codes "w1") (codes "w2") crowded))
    ≡ none
unfolding lookup held
reclaim_loses_rest_example =
    reclaim_loses_rest redis queue documented (codes "w1") (codes "w2") (0 ∷ []) crowded
      (take 100 (held (codes "w1") (many 101))) (many-IsMap 101) refl refl (λ e. cc) refl tt tt

abbrev plain_codec : EventCodec
plain_codec = record {
  marshal = λ e. some e.type;
  unmarshal = λ t. some (record { type = t; body = [] });
}

abbrev tokens : TokenStream
tokens = record { prefix = codes "auxot:" }

abbrev token : TokenEvent
token = record { type = codes "token"; body = [] }

-- A stream that nobody has written to has no events.
token_read :
    (read_tokens redis plain_codec tokens (codes "j1") (codes "0") (pos 10) (pos 0) fresh).0
    ≡ returned []
unfolding read_tokens stream_key
token_read = refl
