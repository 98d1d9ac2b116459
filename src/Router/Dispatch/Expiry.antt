-- ===== src/Router/Dispatch/Expiry.antt =====
-- internal/router/wshandler.go: expireStaleJobs takes exactly the stale jobs off the connection.
use auxot.Common.{
  ℕ, ◌-◌, ◌≡◌, refl, sym, ◌∙◌, ap, inl, inr, Bool, false, Option, none, some, List, [], ◌∷◌, Text,
  text_comparable, ltb, if◌then◌else◌, Bool-cases, Option-cases, arith, map, text_beq, text_beq_iff,
}
use auxot.Common.Assoc.{Assoc, lookup, erase, IsMap, lookup-erase, erase-IsMap}
use auxot.Protocol.{Json}
use auxot.Queue.Redis.{Redis, contains}
use auxot.Queue.Tokens.{EventCodec}
use auxot.Router.Conn.{ActiveJob, StaleJob, stale_in, stale_jobs}
use auxot.Router.Conn.Slots.{InSync, complete-InSync, complete_job-conn}
use auxot.Router.Dispatch.{WsHandler, World, expire_job, expire_each, expire_stale_jobs}

abbrev ids_of : List StaleJob → List Text
ids_of stale = map (λ s. s.job_id) stale

-- The jobs without some of them.
abbrev erase_all : List Text → Assoc Text ActiveJob → Assoc Text ActiveJob
erase_all [] m = m
erase_all (i ∷ ids) m = erase_all ids (erase i m)

lookup-erase_all :
    (ids : List Text) (j : Text) (m : Assoc Text ActiveJob)
    → IsMap m
    → lookup j (erase_all ids m) ≡ (if contains ids j then none else lookup j m)
lookup-erase_all [] j m u = refl
lookup-erase_all (i ∷ ids) j m u =
    lookup-erase_all ids j (erase i m) (erase-IsMap i m u) ∙ ground (arith, lookup-erase i j m u)

stale : ℕ → ℕ → ActiveJob → Bool
stale now timeout aj = ltb timeout (now - aj.assigned_at)

-- What is left of a job by the time.
abbrev unless_stale : ℕ → ℕ → Option ActiveJob → Option ActiveJob
unless_stale now timeout none = none
unless_stale now timeout (some aj) = if ltb timeout (now - aj.assigned_at) then none else some aj

stale_in-absent :
    (now timeout : ℕ) (j : Text) (m : Assoc Text ActiveJob)
    → lookup j m ≡ none
    → contains (ids_of (stale_in now timeout m)) j ≡ false
unfolding stale_in lookup
stale_in-absent now timeout j [] e = refl
stale_in-absent now timeout j ((i, aj) ∷ m) e = ground (arith, stale_in-absent now timeout j m)

lookup-stale_in :
    (now timeout : ℕ) (j : Text) (m : Assoc Text ActiveJob)
    → IsMap m
    → (if contains (ids_of (stale_in now timeout m)) j then none else lookup j m)
      ≡ unless_stale now timeout (lookup j m)
unfolding stale_in lookup
lookup-stale_in now timeout j [] u = refl
lookup-stale_in now timeout j ((i, aj) ∷ m) u = elim (Bool-cases (text_beq i j)) [
  | inl hit ↦
      let same : i ≡ j = (text_beq_iff i j).0 hit in
      let rest = stale_in-absent now timeout j m (rw (sym same) (u.0)) in
      elim (Bool-cases (ltb timeout (now - aj.assigned_at))) [
        | inl old ↦ rw (hit, old, hit)
        | inr new ↦ rw (hit, new, rest)
      ]
  | inr miss ↦
      let rest = lookup-stale_in now timeout j m u.1 in
      elim (Bool-cases (ltb timeout (now - aj.assigned_at))) [
        | inl old ↦ rw (miss, old, miss) rest
        | inr new ↦ rw (miss, new) rest
      ]
]

module _ (r : Redis) (json : Json) (codec : EventCodec) (h : WsHandler) where
  expire_each-conn :
      (gone : List StaleJob) (w : World r)
      → (expire_each r json codec h gone w).conn.active_jobs
        ≡ erase_all (ids_of gone) w.conn.active_jobs
  unfolding expire_each expire_job
  expire_each-conn [] w = refl
  expire_each-conn (s ∷ gone) w =
      expire_each-conn gone (expire_job r json codec h s w)
      ∙ ap (λ wc. erase_all (ids_of gone) wc.active_jobs) (complete_job-conn s.job_id w.conn)

  expire_each-InSync :
      (gone : List StaleJob) (w : World r)
      → InSync w.conn w.pool
      → let w' = expire_each r json codec h gone w in InSync w'.conn w'.pool
  unfolding expire_each expire_job
  expire_each-InSync [] w s = s
  expire_each-InSync (g ∷ gone) w s =
      expire_each-InSync gone (expire_job r json codec h g w)
        (complete-InSync g.job_id w.conn w.pool s)

  pub expire-InSync :
      (now : ℕ) (w : World r)
      → InSync w.conn w.pool
      → let w' = expire_stale_jobs r json codec h now w in InSync w'.conn w'.pool
  unfolding expire_stale_jobs
  expire-InSync now w s = expire_each-InSync (stale_jobs now h.job_timeout w.conn) w s

  -- Where the jobs in flight are a map, expireStaleJobs takes a job off the connection if it has been
  -- in flight for longer than the job timeout, and leaves every other job as it is.
  pub lookup-expire_stale_jobs :
      (now : ℕ) (job_id : Text) (w : World r)
      → IsMap w.conn.active_jobs
      → lookup job_id (expire_stale_jobs r json codec h now w).conn.active_jobs
        ≡ elim (lookup job_id w.conn.active_jobs) [
          | none ↦ none
          | some aj ↦ if ltb h.job_timeout (now - aj.assigned_at) then none else some aj
        ]
  unfolding expire_stale_jobs stale_jobs
  lookup-expire_stale_jobs now job_id w u =
      let m = w.conn.active_jobs in
      ap (lookup job_id) (expire_each-conn (stale_in now h.job_timeout m) w)
      ∙ lookup-erase_all (ids_of (stale_in now h.job_timeout m)) job_id m u
      ∙ lookup-stale_in now h.job_timeout job_id m u
      ∙ elim (Option-cases (lookup job_id m)) [ inl e ↦ rw e | inr (aj, e) ↦ rw e ]
