-- ===== src/Router/Hello/Admitted.antt =====
-- internal/router/wshandler.go: which workers are admitted, and what is left of the others.
use auxot.Common.Int.{ℤ}
use auxot.Common.{
  ℕ, ◌≡◌, ◌≢◌, refl, sym, ap, Bool, true, Option, none, some, Text, codes, text_beq,
  text_comparable, inl, inr, Bool-cases, Option-cases,
}
use auxot.Common.Assoc.{lookup, insert, lookup-insert_self, erase-insert}
use auxot.Auth.{Primitives, Outcome, ok, failed, verify_admin_key}
use auxot.Gpu
use auxot.Protocol.{Json}
use auxot.Protocol.Worker.{HelloMessage, HelloAckMessage}
use auxot.Protocol.Parse.{MessageCodec}
use auxot.Queue.Redis.{Redis}
use auxot.Queue.Tokens.{EventCodec}
use auxot.Router.Conn.{WorkerConn}
use auxot.Router.Conn.Slots.{InSync}
use auxot.Router.Dispatch.{WsHandler}
use auxot.Router.Handlers.{cleanup}
use auxot.Router.Policy.{Config}
use auxot.Router.Hello.{
  Server, no_reply, refusal, to_tools, greeted, tools_not_enabled, invalid_gpu_key, is_accepted,
  slots_for, capabilities_for, new_conn, ack_for, disconnect, register, greet, add_worker,
  refuse_tools, on_key, on_hello, first_hello, serve_http,
}

-- A worker that is in the pool and among the connections, with its acknowledgement.
pub record Joined (r : Redis) (config : Config) (hello : HelloMessage) (id : Text)
    (ack : HelloAckMessage) (wc : WorkerConn) (s : Server r) : Type 0 where
  pub acked : ack ≡ ack_for config hello id
  pub conn : wc ≡ new_conn config hello id
  pub in_sync : InSync wc s.pool
  pub registered : lookup id s.workers ≡ some wc

is_accepted_lem : (verified : Outcome Bool) → is_accepted verified ≡ true → verified ≡ ok true
unfolding is_accepted
is_accepted_lem (ok valid) h = ap ok h
is_accepted_lem (failed f) h = cc

remove_new :
    (id : Text) (worker : Gpu.Worker) (p : Gpu.Pool)
    → lookup id p.workers ≡ none
    → (Gpu.remove id (record p { workers = insert id worker p.workers })).1 ≡ p
unfolding Gpu.remove
remove_new id worker p e =
    rw (lookup-insert_self id worker p.workers, Gpu.remove)
      (ap (λ m. record { workers = m }) (erase-insert id worker p.workers e))

remove-add :
    (now : ℕ) (id : Text) (caps : Gpu.Capabilities) (slots : ℤ) (p : Gpu.Pool)
    → lookup id p.workers ≡ none
    → (Gpu.remove id (Gpu.add now id caps slots p).1).1 ≡ p
unfolding Gpu.add
remove-add now id caps slots p e = rw (e, Gpu.add) (remove_new id _ p e)

module _ (r : Redis) (json : Json) (codec : EventCodec) (h : WsHandler) (config : Config) where
  joined :
      (now : ℕ) (id : Text) (hello : HelloMessage) (ack : HelloAckMessage) (wc : WorkerConn)
      (s : Server r)
      → lookup id s.pool.workers ≡ none
      → greeted (ack_for config hello id) (new_conn config hello id) ≡ greeted ack wc
      → let pool' =
          (Gpu.add now id (capabilities_for config hello) (slots_for config hello) s.pool).1 in
        Joined r config hello id ack wc (register r json codec h config pool' id hello s)
  unfolding Gpu.add register
  joined now id hello ack wc s fresh e =
      let same : new_conn config hello id ≡ wc = cc in
      rw (sym same, Gpu.add, fresh)
        (record {
          acked = (cc);
          conn = refl;
          in_sync = record {
            worker = _;
            found = lookup-insert_self id _ s.pool.workers;
            same_jobs = refl;
            same_slots = refl;
          };
          registered = lookup-insert_self id _ s.workers;
        })

  add_worker-Joined :
      (now : ℕ) (delivers : Bool) (id : Text) (hello : HelloMessage) (ack : HelloAckMessage)
      (wc : WorkerConn) (s : Server r)
      → (add_worker r json codec h config now delivers id hello s).0 ≡ greeted ack wc
      → Joined r config hello id ack wc (add_worker r json codec h config now delivers id hello s).1
  unfolding add_worker greet Gpu.add
  add_worker-Joined now delivers id hello ack wc s g =
      elim (Option-cases (lookup id s.pool.workers)) [
        | inr (_, e) ↦ let no : no_reply ≡ greeted ack wc = rw (e, add_worker, Gpu.add) at g in cc
        | inl e ↦ elim (Bool-cases delivers) [
          | inr lost ↦
              let no : no_reply ≡ greeted ack wc = rw (e, add_worker, Gpu.add, greet, lost) at g in
              cc
          | inl sent ↦
              let same : greeted (ack_for config hello id) (new_conn config hello id)
                  ≡ greeted ack wc =
                rw (e, add_worker, Gpu.add, greet, sent) at g in
              let j : _ = joined now id hello ack wc s e same in
              rw (e, add_worker, Gpu.add, greet, sent) j
        ]
      ]

  -- A connection that is cut before its worker is greeted leaves the pool as it was.
  add_worker-unchanged :
      (now : ℕ) (delivers : Bool) (id : Text) (hello : HelloMessage) (s : Server r)
      → lookup id s.workers ≡ none
      → ((ack : HelloAckMessage) (wc : WorkerConn)
          → (add_worker r json codec h config now delivers id hello s).0 ≢ greeted ack wc)
      → let s' = (add_worker r json codec h config now delivers id hello s).1 in
        (s'.pool ≡ s.pool) × (s'.workers ≡ s.workers)
  unfolding add_worker greet Gpu.add register disconnect cleanup Gpu.remove
  add_worker-unchanged now delivers id hello s fresh not_greeted =
      elim (Option-cases (lookup id s.pool.workers)) [
        | inr (_, e) ↦ rw (e, add_worker, Gpu.add) (refl, refl)
        | inl e ↦ elim (Bool-cases delivers) [
          | inl sent ↦
              elim (not_greeted (ack_for config hello id) (new_conn config hello id)
                (rw (e, add_worker, Gpu.add, greet, sent) refl)) [ ]
          | inr lost ↦
              rw (e, add_worker, Gpu.add, greet, lost)
                (
                  remove-add now id (capabilities_for config hello) (slots_for config hello) s.pool
                      e,
                  erase-insert id _ s.workers fresh,
                )
        ]
      ]

  module _ (a : Primitives) (c : MessageCodec) where
    -- What a greeted worker has shown, and the state that it is greeted in.
    pub record Admission (now : ℕ) (id : Text) (first : Option Text) (ack : HelloAckMessage)
        (wc : WorkerConn) (s s' : Server r) : Type 0 where
      pub hello : HelloMessage
      pub read : first_hello r json codec h config a c first ≡ some hello
      pub key : (verify_admin_key a now hello.gpu_key s.verifier).0 ≡ ok true
      pub joins : Joined r config hello id ack wc s'

    on_hello-Joined :
        (now : ℕ) (delivers : Bool) (id : Text) (hello : HelloMessage) (ack : HelloAckMessage)
        (wc : WorkerConn) (s : Server r)
        → (on_hello r json codec h config a c now delivers id hello s).0 ≡ greeted ack wc
        → ((verify_admin_key a now hello.gpu_key s.verifier).0 ≡ ok true)
          × Joined r config hello id ack wc
              (on_hello r json codec h config a c now delivers id hello s).1
    unfolding on_hello refuse_tools on_key
    on_hello-Joined now delivers id hello ack wc s g =
        let checked = verify_admin_key a now hello.gpu_key s.verifier in
        let s1 : Server r = record s { verifier = checked.1 } in
        elim (Bool-cases (text_beq hello.worker_type (codes "tools"))) [
          | inl tools ↦ elim (Option-cases s.tools) [
            | inl e ↦
                let no : refusal tools_not_enabled ≡ greeted ack wc =
                  rw (tools, on_hello, refuse_tools, e) at g in
                cc
            | inr (_, e) ↦
                let no : to_tools hello ≡ greeted ack wc =
                  rw (tools, on_hello, refuse_tools, e) at g in
                cc
          ]
          | inr other ↦ elim (Bool-cases (is_accepted checked.0)) [
            | inl good ↦
                rw (other, on_hello, on_key, good)
                  (
                    is_accepted_lem checked.0 good,
                    add_worker-Joined now delivers id hello ack wc s1
                        (rw (other, on_hello, on_key, good) at g),
                  )
            | inr bad ↦
                let no : refusal invalid_gpu_key ≡ greeted ack wc =
                  rw (other, on_hello, on_key, bad) at g in
                cc
          ]
        ]

    on_hello-unchanged :
        (now : ℕ) (delivers : Bool) (id : Text) (hello : HelloMessage) (s : Server r)
        → lookup id s.workers ≡ none
        → ((ack : HelloAckMessage) (wc : WorkerConn)
            → (on_hello r json codec h config a c now delivers id hello s).0 ≢ greeted ack wc)
        → let s' = (on_hello r json codec h config a c now delivers id hello s).1 in
          (s'.pool ≡ s.pool) × (s'.workers ≡ s.workers)
    unfolding on_hello refuse_tools on_key
    on_hello-unchanged now delivers id hello s fresh not_greeted =
        let checked = verify_admin_key a now hello.gpu_key s.verifier in
        let s1 : Server r = record s { verifier = checked.1 } in
        elim (Bool-cases (text_beq hello.worker_type (codes "tools"))) [
          | inl tools ↦ elim (Option-cases s.tools) [
            | inl e ↦ rw (tools, on_hello, refuse_tools, e) (refl, refl)
            | inr (_, e) ↦ rw (tools, on_hello, refuse_tools, e) (refl, refl)
          ]
          | inr other ↦ elim (Bool-cases (is_accepted checked.0)) [
            | inl good ↦
                rw (other, on_hello, on_key, good)
                  (add_worker-unchanged now delivers id hello s1 fresh
                    (rw (other, on_hello, on_key, good) at not_greeted))
            | inr bad ↦ rw (other, on_hello, on_key, bad) (refl, refl)
          ]
        ]

    -- A worker is greeted only if its first message is a hello whose key the verifier accepts as the
    -- admin key. It is then told its ID and its policy, it is among the connections, and the pool
    -- has it with the connection's slots and no job.
    pub serve_http-Admission :
        (now : ℕ) (delivers : Bool) (id : Text) (first : Option Text) (ack : HelloAckMessage)
        (wc : WorkerConn) (s : Server r)
        → (serve_http r json codec h config a c now delivers id first s).0 ≡ greeted ack wc
        → Admission now id first ack wc s
            (serve_http r json codec h config a c now delivers id first s).1
    unfolding serve_http
    serve_http-Admission now delivers id first ack wc s g =
        elim (Option-cases (first_hello r json codec h config a c first)) [
          | inl e ↦ let no : no_reply ≡ greeted ack wc = rw (e, serve_http) at g in cc
          | inr (hello, e) ↦
              let found =
                on_hello-Joined now delivers id hello ack wc s (rw (e, serve_http) at g) in
              rw (e, serve_http)
                (record { hello = hello; read = e; key = found.0; joins = found.1 })
        ]

    -- A connection that ends without a greeting, whatever the reason (an unread or another first
    -- message, a refused key, a tools worker, a pool that has the ID, an acknowledgement that is
    -- not delivered), leaves the pool and the connections as they were, if no connection has the
    -- new ID.
    pub serve_http-unchanged :
        (now : ℕ) (delivers : Bool) (id : Text) (first : Option Text) (s : Server r)
        → lookup id s.workers ≡ none
        → ((ack : HelloAckMessage) (wc : WorkerConn)
            → (serve_http r json codec h config a c now delivers id first s).0 ≢ greeted ack wc)
        → let s' = (serve_http r json codec h config a c now delivers id first s).1 in
          (s'.pool ≡ s.pool) × (s'.workers ≡ s.workers)
    unfolding serve_http
    serve_http-unchanged now delivers id first s fresh not_greeted =
        elim (Option-cases (first_hello r json codec h config a c first)) [
          | inl e ↦ rw (e, serve_http) (refl, refl)
          | inr (hello, e) ↦
              rw (e, serve_http)
                (on_hello-unchanged now delivers id hello s fresh
                  (rw (e, serve_http) at not_greeted))
        ]
