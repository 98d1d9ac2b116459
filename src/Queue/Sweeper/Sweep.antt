-- ===== src/Queue/Sweeper/Sweep.antt =====
-- pkg/queue/sweeper.go: what a sweep does to the entries that consumers hold.
use auxot.Common.{
  ℕ, ◌≤◌, ◌≡◌, refl, sym, ◌∙◌, ap, subst, ◌≢◌, ◌⊎◌, inl, inr, none, some, List, [], ◌∷◌, Text,
  codes, true, false, text_comparable, text_beq, text_beq_ne, length, take, take-of_length,
  nil_of_take,
}
use auxot.Common.Assoc.{lookup, IsMap}
use auxot.Queue.Redis.{
  Redis, Documented, on_ok, IsOk, Reply-cases, Reply, ok, XMessage, Pel, claimed, dropped, held,
  contains,
}
use auxot.Queue.Jobs.{JobQueue}
use auxot.Queue.Sweeper.{delete_consumer, claim_entries, reclaim_from_consumer}
use auxot.Queue.Sweeper.Pending.{
  lookup-claimed, claimed-IsMap, lookup-dropped_ne, lookup-dropped_self, dropped-IsMap,
  held-of_lookup, held_other, contains-take,
}

-- The ways in which the list of pending entries may come out of `reclaim_from_consumer`: it claims
-- the first hundred entries at most, and drops the consumer only after that.
data Reclaimed (dead target : Text) (before : Pel) : Pel → Type 0 where
  kept : Reclaimed dead target before before
  emptied : held dead before ≡ [] → Reclaimed dead target before (dropped dead before)
  moved : Reclaimed dead target before (claimed (take 100 (held dead before)) target before)
  moved_dropped :
      Reclaimed dead target before
        (dropped dead (claimed (take 100 (held dead before)) target before))

module _ (dead target i : Text) {m : Pel} where
  Reclaimed-IsMap : {m' : Pel} → Reclaimed dead target m m' → IsMap m → IsMap m'
  Reclaimed-IsMap kept u = u
  Reclaimed-IsMap (emptied _) u = dropped-IsMap dead m u
  Reclaimed-IsMap moved u = claimed-IsMap _ target m u
  Reclaimed-IsMap moved_dropped u = dropped-IsMap dead _ (claimed-IsMap _ target m u)

  Reclaimed-others :
      (c : Text) {m' : Pel}
      → Reclaimed dead target m m'
      → IsMap m
      → lookup i m ≡ some c
      → text_beq c dead ≡ false
      → lookup i m' ≡ some c
  Reclaimed-others c re u at ne =
      let unlisted : contains (take 100 (held dead m)) i ≡ false =
        contains-take 100 (held dead m) i (held_other dead m i c u at ne) in
      let unmoved : lookup i (claimed (take 100 (held dead m)) target m) ≡ some c =
        lookup-claimed _ target m i c at ∙ rw unlisted in
      go re unmoved
    where
      go :
          {n : Pel}
          → Reclaimed dead target m n
          → lookup i (claimed (take 100 (held dead m)) target m) ≡ some c
          → lookup i n ≡ some c
      go kept h = at
      go (emptied _) h = lookup-dropped_ne dead m i c at ne
      go moved h = h
      go moved_dropped h = lookup-dropped_ne dead _ i c h ne

  Reclaimed-own :
      {m' : Pel}
      → Reclaimed dead target m m'
      → IsMap m
      → lookup i m ≡ some dead
      → length (held dead m) ≤ 100
      → text_beq target dead ≡ false
      → (lookup i m' ≡ some dead) ⊎ (lookup i m' ≡ some target)
  Reclaimed-own re u at few ne =
      let listed : contains (take 100 (held dead m)) i ≡ true =
        rw (take-of_length 100 (held dead m) few) (held-of_lookup dead m i at) in
      go re (lookup-claimed _ target m i dead at ∙ rw listed)
    where
      go :
          {n : Pel}
          → Reclaimed dead target m n
          → lookup i (claimed (take 100 (held dead m)) target m) ≡ some target
          → (lookup i n ≡ some dead) ⊎ (lookup i n ≡ some target)
      go kept h = inl at
      go (emptied nothing) h =
          let found : contains (held dead m) i ≡ true = held-of_lookup dead m i at in
          let absent : contains (held dead m) i ≡ false = rw nothing in cc
      go moved h = inr h
      go moved_dropped h = inr (lookup-dropped_ne dead _ i target h ne)

module _ (r : Redis) (q : JobQueue) (doc : Documented r q.stream_key q.group_name) where
  abbrev pend : r.Db → Pel
  pend db = r.pending q.stream_key q.group_name db

  delete_consumer-pend :
      (c : Text) (db : r.Db)
      → (pend (delete_consumer r q c db) ≡ pend db)
        ⊎ (pend (delete_consumer r q c db) ≡ dropped c (pend db))
  unfolding delete_consumer
  delete_consumer-pend c db =
      let deletion = r.xgroup_delconsumer q.stream_key q.group_name c db in
      let law : pend deletion.1 ≡ on_ok deletion.0 (dropped c (pend db)) (pend db) =
        doc.xgroup_delconsumer_pending c db in
      elim (Reply-cases deletion.0) [
        | inl (f, e) ↦ inl (law ∙ rw e)
        | inr (n, e) ↦ inr (law ∙ rw e)
      ]

  claim_entries-Reclaimed :
      (dead target : Text) (ids : List Text) (db : r.Db) (before : Pel)
      → pend db ≡ before
      → ids ≡ take 100 (held dead before)
      → Reclaimed dead target before (pend (claim_entries r q dead target ids db))
  unfolding claim_entries
  claim_entries-Reclaimed dead target ids db before at listed =
      let claim = r.xclaim q.stream_key q.group_name target 0 ids db in
      let law : pend claim.1 ≡ on_ok claim.0 (claimed ids target (pend db)) (pend db) =
        doc.xclaim_pending target ids db in
      elim (Reply-cases claim.0) [
        | inl (f, e) ↦
            let same : pend claim.1 ≡ before = law ∙ rw e at in rw (e, claim_entries, same) kept
        | inr (taken, e) ↦
            let gone : pend claim.1 ≡ claimed (take 100 (held dead before)) target before =
              law ∙ rw (e, at, listed) in
            elim (delete_consumer-pend dead claim.1) [
              | inl stays ↦ rw (e, claim_entries, stays, gone) moved
              | inr goes ↦ rw (e, claim_entries, goes, gone) moved_dropped
            ]
      ]

  reclaim-Reclaimed :
      (dead target : Text) (db : r.Db)
      → Reclaimed dead target (pend db) (pend (reclaim_from_consumer r q dead target db))
  unfolding reclaim_from_consumer
  reclaim-Reclaimed dead target db =
      let listing = r.xpending_ext q.stream_key q.group_name (codes "-") (codes "+") 100 dead db in
      let same : pend listing.1 ≡ pend db = doc.xpending_ext_pending 100 dead db in
      elim (Reply-cases listing.0) [
        | inl (f, e) ↦ rw (e, reclaim_from_consumer, same) kept
        | inr ([], e) ↦
            let none_held : held dead (pend db) ≡ [] =
              nil_of_take 99 (held dead (pend db)) (sym (doc.xpending_ext_ok 100 dead db [] e)) in
            elim (delete_consumer-pend dead listing.1) [
              | inl stays ↦ rw (e, reclaim_from_consumer, stays, same) kept
              | inr goes ↦ rw (e, reclaim_from_consumer, goes, same) (emptied none_held)
            ]
        | inr (id ∷ rest, e) ↦
            rw (e, reclaim_from_consumer)
              (claim_entries-Reclaimed dead target (id ∷ rest) listing.1 (pend db) same
                (doc.xpending_ext_ok 100 dead db (id ∷ rest) e))
      ]

  pub reclaim-IsMap :
      (dead target : Text) (db : r.Db)
      → IsMap (r.pending q.stream_key q.group_name db)
      → IsMap (r.pending q.stream_key q.group_name (reclaim_from_consumer r q dead target db))
  reclaim-IsMap dead target db u =
      Reclaimed-IsMap dead target [] (reclaim-Reclaimed dead target db) u

  -- Reclaiming from a dead consumer leaves the entries of all other consumers where they are,
  -- whatever Redis replies.
  pub reclaim_keeps_others :
      (dead target i c : Text) (db : r.Db)
      → IsMap (r.pending q.stream_key q.group_name db)
      → lookup i (r.pending q.stream_key q.group_name db) ≡ some c
      → c ≢ dead
      → lookup i (r.pending q.stream_key q.group_name (reclaim_from_consumer r q dead target db))
        ≡ some c
  reclaim_keeps_others dead target i c db u at ne =
      Reclaimed-others dead target i c (reclaim-Reclaimed dead target db) u at
        (text_beq_ne c dead ne)

  -- If the dead consumer holds at most 100 entries and is not the target, then each of its entries
  -- is pending afterwards, under it or under the target, whatever Redis replies.
  pub reclaim_loses_none :
      (dead target i : Text) (db : r.Db)
      → IsMap (r.pending q.stream_key q.group_name db)
      → lookup i (r.pending q.stream_key q.group_name db) ≡ some dead
      → length (held dead (r.pending q.stream_key q.group_name db)) ≤ 100
      → target ≢ dead
      → let after =
          r.pending q.stream_key q.group_name (reclaim_from_consumer r q dead target db) in
        (lookup i after ≡ some dead) ⊎ (lookup i after ≡ some target)
  reclaim_loses_none dead target i db u at few ne =
      Reclaimed-own dead target i (reclaim-Reclaimed dead target db) u at few
        (text_beq_ne target dead ne)

  -- The three commands of a reclaim, each on the state that the one before leaves.
  abbrev listing : Text → r.Db → Reply (List Text) × r.Db
  listing dead db = r.xpending_ext q.stream_key q.group_name (codes "-") (codes "+") 100 dead db

  abbrev claim : Text → Text → List Text → r.Db → Reply (List XMessage) × r.Db
  claim dead target ids db = r.xclaim q.stream_key q.group_name target 0 ids (listing dead db).1

  abbrev deletion : Text → Text → List Text → r.Db → Reply ℕ × r.Db
  deletion dead target ids db =
      r.xgroup_delconsumer q.stream_key q.group_name dead (claim dead target ids db).1

  reclaim_all_ok :
      (dead target id : Text) (rest : List Text) (db : r.Db)
      → (listing dead db).0 ≡ ok (id ∷ rest)
      → IsOk (claim dead target (id ∷ rest) db).0
      → IsOk (deletion dead target (id ∷ rest) db).0
      → pend (reclaim_from_consumer r q dead target db)
        ≡ dropped dead (claimed (id ∷ rest) target (pend db))
  unfolding reclaim_from_consumer delete_consumer
  reclaim_all_ok dead target id rest db listed claim_ok deletion_ok =
      let same : pend (listing dead db).1 ≡ pend db = doc.xpending_ext_pending 100 dead db in
      elim (Reply-cases (claim dead target (id ∷ rest) db).0) [
        | inl (f, e) ↦ absurd (subst IsOk e claim_ok)
        | inr (taken, e) ↦ elim (Reply-cases (deletion dead target (id ∷ rest) db).0) [
          | inl (f, e') ↦ absurd (subst IsOk e' deletion_ok)
          | inr (n, e') ↦
              rw (listed, reclaim_from_consumer, e, claim_entries)
                (doc.xgroup_delconsumer_pending dead (claim dead target (id ∷ rest) db).1
                  ∙ rw e' (
                      ap (dropped dead)
                        (doc.xclaim_pending target (id ∷ rest) (listing dead db).1 ∙ rw (e, same))))
        ]
      ]

  -- An entry of the dead consumer that the listing leaves out, as it does behind the first 100, is
  -- pending under nobody once the listing, the claim and the deletion have succeeded.
  pub reclaim_loses_rest :
      (dead target i : Text) (db : r.Db) (ids : List Text)
      → IsMap (r.pending q.stream_key q.group_name db)
      → lookup i (r.pending q.stream_key q.group_name db) ≡ some dead
      → (listing dead db).0 ≡ ok ids
      → ids ≢ []
      → contains ids i ≡ false
      → IsOk (claim dead target ids db).0
      → IsOk (deletion dead target ids db).0
      → lookup i (r.pending q.stream_key q.group_name (reclaim_from_consumer r q dead target db))
        ≡ none
  reclaim_loses_rest dead target i db [] u at listed some_ids out claim_ok deletion_ok =
      absurd (some_ids refl)
  reclaim_loses_rest dead target i db (id ∷ rest) u at listed some_ids out claim_ok deletion_ok =
      rw (reclaim_all_ok dead target id rest db listed claim_ok deletion_ok) (
        lookup-dropped_self dead (claimed (id ∷ rest) target (pend db)) i
          (claimed-IsMap (id ∷ rest) target (pend db) u)
          (lookup-claimed (id ∷ rest) target (pend db) i dead at ∙ rw out))
