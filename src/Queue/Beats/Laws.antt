-- ===== src/Queue/Beats/Laws.antt =====
-- pkg/queue/heartbeat.go: what the heartbeat's readers leave alone, and which workers they name.
use auxot.Common.{
  ℕ, zero, suc, ◌≡◌, refl, sym, ◌∙◌, ◌≢◌, inl, inr, List, [], ◌∷◌, ◌++◌, Text, codes, true, false,
  text_comparable, nat_beq, length, arith, Bool-cases, ltb, drop, length-append, map, append_assoc,
  All,
}
use auxot.Queue.Redis.{Redis, Frames, Reply-cases, ok}
use auxot.Queue.Jobs.{returned, error, checking}
use auxot.Queue.Beats.{Heartbeat, is_alive, scan_from, live_worker_ids, key, worker_ids_of}

module _ (r : Redis) (h : Heartbeat) where
  -- A view that SCAN leaves alone is left alone by the whole iteration.
  scan_from-Frames :
      {V : Type 0} (view : r.Db → V)
      → ((cursor : ℕ) (pattern : Text) (count : ℕ) → Frames r view (r.scan cursor pattern count))
      → (fuel cursor : ℕ) (ids : List Text) (db : r.Db)
      → view (scan_from r fuel h cursor ids db).1 ≡ view db
  unfolding scan_from
  scan_from-Frames view frames zero cursor ids db = refl
  scan_from-Frames view frames (suc fuel) cursor ids db =
      let pattern : Text = h.prefix ++ codes "heartbeat:*" in
      let step = r.scan cursor pattern 100 db in
      let same : view step.1 ≡ view db = frames cursor pattern 100 db in
      elim (Reply-cases step.0) [
        | inl (f, e) ↦ rw (e, scan_from) same
        | inr ((keys, next), e) ↦ elim (Bool-cases (nat_beq next 0)) [
          | inl last ↦ rw (e, scan_from, last) same
          | inr more ↦
              rw (e, scan_from, more) (scan_from-Frames view frames fuel next _ step.1 ∙ same)
        ]
      ]

  pub live_worker_ids-Frames :
      {V : Type 0} (view : r.Db → V)
      → ((cursor : ℕ) (pattern : Text) (count : ℕ) → Frames r view (r.scan cursor pattern count))
      → (fuel : ℕ) (db : r.Db) → view (live_worker_ids r fuel h db).1 ≡ view db
  unfolding live_worker_ids
  live_worker_ids-Frames view frames fuel db = scan_from-Frames view frames fuel 0 [] db

  pub is_alive-Frames :
      {V : Type 0} (view : r.Db → V) (c : Text)
      → Frames r view (r.exists (key h c))
      → (db : r.Db) → view (is_alive r h c db).1 ≡ view db
  unfolding is_alive
  is_alive-Frames view c frames db = frames db

  -- A consumer that counts as dead has no heartbeat, where EXISTS counts keys.
  pub is_alive-false :
      (c : Text) (db : r.Db)
      → ((n : ℕ) → (r.exists (key h c) db).0 ≡ ok n → ltb 0 n ≡ r.is_set (key h c) db)
      → (is_alive r h c db).0 ≡ returned false
      → r.is_set (key h c) db ≡ false
  unfolding is_alive
  is_alive-false c db counts e = elim (Reply-cases (r.exists (key h c) db).0) [
    | inl (f, at) ↦ let no : error checking ≡ returned false = rw (at, is_alive) at e in cc
    | inr (n, at) ↦
        let down : returned (ltb 0 n) ≡ returned false = rw (at, is_alive) at e in
        let no_key : ltb 0 n ≡ false = ground arith in sym (counts n at) ∙ no_key
  ]

-- Behind the prefix of a key stands the worker's ID.
drop-append : (s t : Text) → drop (length s) (s ++ t) ≡ t
drop-append [] t = refl
drop-append (c ∷ s) t = drop-append s t

key-append : (h : Heartbeat) (id : Text) → key h id ≡ (h.prefix ++ codes "heartbeat:") ++ id
unfolding key
key-append h id = sym (append_assoc h.prefix (codes "heartbeat:") id)

longer : (prefix id : Text) → id ≢ [] → ltb (length prefix) (length (prefix ++ id)) ≡ true
longer prefix [] h = absurd (h refl)
longer prefix (c ∷ id) h = ground (arith, length-append prefix (c ∷ id))

-- LiveWorkerIDs reads the IDs of workers back from their heartbeat keys, in order, unless an ID is
-- empty.
pub worker_ids_of-key :
    (h : Heartbeat) (ids : List Text)
    → All (λ id. id ≢ []) ids
    → worker_ids_of (length (h.prefix ++ codes "heartbeat:")) (map (key h) ids) ≡ ids
unfolding worker_ids_of
worker_ids_of-key h [] some_ids = refl
worker_ids_of-key h (id ∷ ids) some_ids =
    let prefix : Text = h.prefix ++ codes "heartbeat:" in
    rw (
      key-append h id,
      drop-append prefix id,
      longer prefix id some_ids.0,
      worker_ids_of-key h ids some_ids.1,
    )
