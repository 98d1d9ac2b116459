-- ===== src/Queue/Jobs/Laws.antt =====
-- pkg/queue/job_queue.go: how a job goes through the stream.
use auxot.Common.{
  ◌≡◌, refl, ◌∙◌, ap, ◌≢◌, ◌⊎◌, inl, inr, List, [], ◌∷◌, ◌++◌, Text, codes, text_comparable, arith,
}
use auxot.Common.Assoc.{lookup, erase}
use auxot.Common.Int.{ℤ}
use auxot.Queue.Redis.{Redis, Documented, Reply-cases, on_ok, ok, nil_reply, message, XMessage}
use auxot.Queue.Jobs.{
  JobQueue, StreamEntry, returned, error, acknowledging, enqueuing, reading, entry_of,
  parse_stream_results, enqueue, read, ack, job_values,
}

-- What Read makes of a reply with one stream of one message.
one_entry :
    (key : Text) (m : XMessage)
    → parse_stream_results (record { stream = key; messages = m ∷ [] } ∷ [])
      ≡ returned (entry_of m ∷ [])
unfolding parse_stream_results
one_entry key m = refl

-- The fields that Enqueue stores are the fields that a reader finds.
entry_of-job_values :
    (id job_id body : Text)
    → entry_of (record { id = id; values = job_values job_id body })
      ≡ record { id = id; payload = record { job_id = job_id; body = body } }
unfolding entry_of lookup
entry_of-job_values id job_id body = refl

module _ (r : Redis) (q : JobQueue) (doc : Documented r q.stream_key q.group_name) where
  enqueued :
      (job_id body id : Text) (db : r.Db)
      → (enqueue r q job_id body db).0 ≡ returned id
      → r.waiting q.stream_key q.group_name (enqueue r q job_id body db).1
        ≡ r.waiting q.stream_key q.group_name db
          ++ record { id = id; values = job_values job_id body } ∷ []
  unfolding enqueue
  enqueued job_id body id db e =
      let adding = r.xadd q.stream_key (job_values job_id body) db in
      elim (Reply-cases adding.0) [
        | inl (f, at) ↦ let no : error enqueuing ≡ returned id = rw (at, enqueue) at e in cc
        | inr (id', at) ↦
            let same : returned id' ≡ returned id = rw (at, enqueue) at e in
            let the_id : adding.0 ≡ ok id = ground arith in
            doc.xadd_waiting (job_values job_id body) db id the_id
      ]

  enqueue_pending :
      (job_id body : Text) (db : r.Db)
      → r.pending q.stream_key q.group_name (enqueue r q job_id body db).1
        ≡ r.pending q.stream_key q.group_name db
  unfolding enqueue
  enqueue_pending job_id body db = doc.xadd_pending q.stream_key (job_values job_id body) db

  -- A successful read that returns an entry returns the oldest waiting message and hands it to the
  -- reader.
  read_oldest :
      (consumer : Text) (block : ℤ) (db : r.Db) (m : XMessage) (ms : List XMessage)
      → r.waiting q.stream_key q.group_name db ≡ m ∷ ms
      → ((read r q consumer block db).0 ≡ error reading)
        ⊎ ((read r q consumer block db).0 ≡ returned [])
        ⊎ (((read r q consumer block db).0 ≡ returned (entry_of m ∷ []))
            × (r.waiting q.stream_key q.group_name (read r q consumer block db).1 ≡ ms)
            × (r.pending q.stream_key q.group_name (read r q consumer block db).1
                ≡ r.pending q.stream_key q.group_name db ++ (m.id, consumer) ∷ []))
  unfolding read
  read_oldest consumer block db m ms w =
      let reading' = r.xreadgroup q.group_name consumer q.stream_key (codes ">") 1 block db in
      elim (Reply-cases reading'.0) [
        | inl (nil_reply, e) ↦ inr (inl (rw (e, read)))
        | inl (message t, e) ↦ inl (rw (e, read))
        | inr (results, e) ↦
            let (same, left, taken) = doc.xreadgroup_new consumer 1 block db results e in
            let one : results ≡ record { stream = q.stream_key; messages = m ∷ [] } ∷ [] =
              same ∙ rw w in
            inr (inr (rw (e, read, one) (one_entry q.stream_key m), left ∙ rw w, taken ∙ rw w))
      ]

  -- A job that is enqueued on a stream with nothing to deliver is what the next read returns if it
  -- returns any entry: under the ID that Enqueue returned, with the same job ID and data. Then
  -- nothing is left to deliver, and the entry is pending under the reader, behind the others.
  pub read-enqueue :
      (job_id body id consumer : Text) (block : ℤ) (db : r.Db) (entries : List StreamEntry)
      → r.waiting q.stream_key q.group_name db ≡ []
      → (enqueue r q job_id body db).0 ≡ returned id
      → (read r q consumer block (enqueue r q job_id body db).1).0 ≡ returned entries
      → entries ≢ []
      → let db' = (enqueue r q job_id body db).1 in
        let after = (read r q consumer block db').1 in
        (entries ≡ record { id = id; payload = record { job_id = job_id; body = body } } ∷ [])
        × (r.waiting q.stream_key q.group_name after ≡ [])
        × (r.pending q.stream_key q.group_name after
            ≡ r.pending q.stream_key q.group_name db ++ (id, consumer) ∷ [])
  read-enqueue job_id body id consumer block db entries empty added got some_entry =
      let db' = (enqueue r q job_id body db).1 in
      let m : XMessage = record { id = id; values = job_values job_id body } in
      let waits : r.waiting q.stream_key q.group_name db' ≡ m ∷ [] =
        enqueued job_id body id db added ∙ rw empty in
      elim (read_oldest consumer block db' m [] waits) [
        | inl failed' ↦ cc
        | inr (inl nothing) ↦ let no : entries ≡ [] = ground arith in absurd (some_entry no)
        | inr (inr (one, left, taken)) ↦
            let same : entries ≡ entry_of m ∷ [] = ground arith in
            (
              same ∙ rw (entry_of-job_values id job_id body),
              left,
              taken ∙ ap (λ p. p ++ (id, consumer) ∷ []) (enqueue_pending job_id body db),
            )
      ]

  -- Ack changes the list of pending entries as the reply to its XACK says, whatever the reply to its
  -- XDEL.
  pub ack-pending :
      (id : Text) (db : r.Db)
      → r.pending q.stream_key q.group_name (ack r q id db).1
        ≡ on_ok
            (r.xack q.stream_key q.group_name id db).0
            (erase id (r.pending q.stream_key q.group_name db))
            (r.pending q.stream_key q.group_name db)
  unfolding ack
  ack-pending id db =
      let acking = r.xack q.stream_key q.group_name id db in
      let law = doc.xack_pending id db in
      elim (Reply-cases acking.0) [
        | inl (f, e) ↦ rw (e, ack) (law ∙ rw e)
        | inr (n, e) ↦ rw (e, ack) (doc.xdel_pending id acking.1 ∙ law ∙ rw e)
      ]

  -- Ack takes the entry off the list of pending entries, unless Redis refuses the acknowledgement;
  -- then the list is as before. A failed deletion does not put the entry back.
  pub ack_pending :
      (id : Text) (db : r.Db)
      → (((ack r q id db).0 ≡ error acknowledging)
          × (r.pending q.stream_key q.group_name (ack r q id db).1
              ≡ r.pending q.stream_key q.group_name db))
        ⊎ (((ack r q id db).0 ≢ error acknowledging)
            × (r.pending q.stream_key q.group_name (ack r q id db).1
                ≡ erase id (r.pending q.stream_key q.group_name db)))
  unfolding ack
  ack_pending id db =
      let acking = r.xack q.stream_key q.group_name id db in
      let law = doc.xack_pending id db in
      elim (Reply-cases acking.0) [
        | inl (f, e) ↦ inl (rw (e, ack), rw (e, ack) (law ∙ rw e))
        | inr (n, e) ↦
            let gone : r.pending q.stream_key q.group_name (r.xdel q.stream_key id acking.1).1
                ≡ erase id (r.pending q.stream_key q.group_name db) =
              doc.xdel_pending id acking.1 ∙ law ∙ rw e in
            elim (Reply-cases (r.xdel q.stream_key id acking.1).0) [
              | inl (f, e') ↦ inr (rw (e, ack, e') (λ x. cc), rw (e, ack) gone)
              | inr (k, e') ↦ inr (rw (e, ack, e') (λ x. cc), rw (e, ack) gone)
            ]
      ]
