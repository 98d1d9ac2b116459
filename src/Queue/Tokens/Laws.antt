-- ===== src/Queue/Tokens/Laws.antt =====
-- pkg/queue/job_queue.go: events on a job's stream do not touch the queue's pending entries, and
-- reach the readers of that stream alone.
use auxot.Common.{
  ℕ, ◌≡◌, ◌∙◌, inl, inr, none, some, [], ◌∷◌, ◌++◌, Text, codes, text_comparable, text_beq, ltb,
  true, Option-cases, if◌then◌else◌,
}
use auxot.Common.Assoc.{Assoc}
use auxot.Queue.Redis.{Redis, Documented, Reply-cases}
use auxot.Queue.Jobs.{JobQueue, returned, error}
use auxot.Queue.Tokens.{TokenStream, TokenEvent, EventCodec, stream_key, publish, set_ttl}

module _ (r : Redis) (c : EventCodec) (q : JobQueue) (doc : Documented r q.stream_key q.group_name)
    (ts : TokenStream) where
  abbrev pending : r.Db → Assoc Text Text
  pending = r.pending q.stream_key q.group_name

  pub publish-pending :
      (job_id : Text) (event : TokenEvent) (db : r.Db)
      → pending (publish r c ts job_id event db).1 ≡ pending db
  unfolding publish
  publish-pending job_id event db = elim (Option-cases (c.marshal event)) [
    | inl e ↦ rw (e, publish)
    | inr (text, e) ↦
        rw (e, publish) (doc.xadd_pending (stream_key ts job_id) ((codes "event", text) ∷ []) db)
  ]

  pub set_ttl-pending :
      (job_id : Text) (ttl : ℕ) (db : r.Db)
      → ltb 0 ttl ≡ true
      → pending (set_ttl r c ts job_id ttl db).1 ≡ pending db
  unfolding set_ttl
  set_ttl-pending job_id ttl db later = doc.expire_pending (stream_key ts job_id) ttl later db

  -- An event that is published is the last one of its stream, and no other stream has changed; one
  -- that is not published, because it cannot be encoded or Redis refuses it, changes no stream.
  pub publish-history :
      (job_id other : Text) (event : TokenEvent) (db : r.Db)
      → let (result, db') = publish r c ts job_id event db in
        r.history other db' ≡ elim result [
          | error _ ↦ r.history other db
          | returned _ ↦ elim (c.marshal event) [
            | none ↦ r.history other db
            | some text ↦
                if text_beq (stream_key ts job_id) other
                then r.history other db ++ ((codes "event", text) ∷ []) ∷ []
                else r.history other db
          ]
        ]
  unfolding publish
  publish-history job_id other event db = elim (Option-cases (c.marshal event)) [
    | inl e ↦ rw (e, publish)
    | inr (text, e) ↦
        let values : Assoc Text Text = (codes "event", text) ∷ [] in
        let law = doc.xadd_history (stream_key ts job_id) other values db in
        elim (Reply-cases (r.xadd (stream_key ts job_id) values db).0) [
          | inl (f, a) ↦ rw (e, publish, a) (law ∙ rw a)
          | inr (id, a) ↦ rw (e, publish, a, e) (law ∙ rw a)
        ]
  ]

  pub set_ttl-history :
      (job_id other : Text) (ttl : ℕ) (db : r.Db)
      → ltb 0 ttl ≡ true
      → r.history other (set_ttl r c ts job_id ttl db).1 ≡ r.history other db
  unfolding set_ttl
  set_ttl-history job_id other ttl db later =
      doc.expire_history (stream_key ts job_id) ttl other later db
