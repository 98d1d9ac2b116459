-- ===== src/Router/Handlers/Config.antt =====
-- internal/router/wshandler.go: the messages that change no job keep the connection and the pool in
-- step.
use auxot.Common.{ℕ, refl, inl, inr, Bool, true, false, text_comparable, Bool-cases}
use auxot.Common.Assoc.{lookup-insert_self}
use auxot.Common.Int.{pos, ltb_ℤ}
use auxot.Gpu
use auxot.Protocol.{Json}
use auxot.Queue.Redis.{Redis}
use auxot.Queue.Tokens.{EventCodec}
use auxot.Router.Conn.{WorkerConn}
use auxot.Router.Conn.Slots.{InSync}
use auxot.Router.Dispatch.{WsHandler, World, ServerMessage}
use auxot.Router.Handlers.{acknowledge, set_max_slots, handle_config, handle_heartbeat}

module _ (r : Redis) (json : Json) (codec : EventCodec) (h : WsHandler) where
  acknowledge-InSync :
      (delivers : Bool) (msg : ServerMessage) (w : World r)
      → InSync w.conn w.pool
      → let w' = acknowledge r json codec h delivers msg w in InSync w'.conn w'.pool
  unfolding acknowledge
  acknowledge-InSync true msg w s = s
  acknowledge-InSync false msg w s = s

  reported :
      (caps : Gpu.Capabilities) (wc : WorkerConn) (p : Gpu.Pool)
      → InSync wc p
      → InSync (set_max_slots caps.total_slots wc) (Gpu.update_capabilities wc.id caps p).1
  unfolding set_max_slots Gpu.update_capabilities Gpu.set_capabilities
  reported caps wc p s = elim (Bool-cases (ltb_ℤ (pos 0) caps.total_slots)) [
    | inl some_slots ↦
        rw (s.found, Gpu.update_capabilities, Gpu.set_capabilities, set_max_slots, some_slots)
          (record {
            worker = record s.worker { capabilities = caps; max_slots = caps.total_slots };
            found = lookup-insert_self wc.id _ p.workers;
            same_jobs = s.same_jobs;
            same_slots = refl;
          })
    | inr no_slots ↦
        rw (s.found, Gpu.update_capabilities, Gpu.set_capabilities, set_max_slots, no_slots)
          (record {
            worker = record s.worker { capabilities = caps };
            found = lookup-insert_self wc.id _ p.workers;
            same_jobs = s.same_jobs;
            same_slots = s.same_slots;
          })
  ]

  pub config-InSync :
      (delivers : Bool) (caps : Gpu.Capabilities) (w : World r)
      → InSync w.conn w.pool
      → let w' = handle_config r json codec h delivers caps w in InSync w'.conn w'.pool
  unfolding handle_config
  config-InSync delivers caps w s = acknowledge-InSync delivers _ _ (reported caps w.conn w.pool s)

  beat :
      (now : ℕ) (wc : WorkerConn) (p : Gpu.Pool)
      → InSync wc p
      → InSync wc (Gpu.heartbeat now wc.id p).1
  unfolding Gpu.heartbeat
  beat now wc p s =
      rw (s.found, Gpu.heartbeat)
        (record {
          worker = record s.worker { last_heartbeat = now };
          found = lookup-insert_self wc.id _ p.workers;
          same_jobs = s.same_jobs;
          same_slots = s.same_slots;
        })

  pub heartbeat-InSync :
      (now : ℕ) (delivers : Bool) (w : World r)
      → InSync w.conn w.pool
      → let w' = handle_heartbeat r json codec h now delivers w in InSync w'.conn w'.pool
  unfolding handle_heartbeat
  heartbeat-InSync now delivers w s = acknowledge-InSync delivers _ _ (beat now w.conn w.pool s)
