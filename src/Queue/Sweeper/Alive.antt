-- ===== src/Queue/Sweeper/Alive.antt =====
-- pkg/queue/sweeper.go: a sweep does not take entries from live consumers.
use auxot.Common.{
  ℕ, ◌+◌, ◌%◌, ◌≡◌, refl, sym, ◌∙◌, ◌≢◌, inl, inr, some, List, [], ◌∷◌, Text, true, false,
  text_comparable, nat_beq, length, get_or, Bool-cases, Option-cases, All,
}
use auxot.Common.Assoc.{Assoc, lookup, IsMap}
use auxot.Queue.Redis.{Redis, Documented, Reply-cases, Pel}
use auxot.Queue.Jobs.{JobQueue, returned, error, Result-cases}
use auxot.Queue.Beats.{Heartbeat, is_alive, live_worker_ids, key}
use auxot.Queue.Beats.Laws.{live_worker_ids-Frames, is_alive-Frames, is_alive-false}
use auxot.Queue.Sweeper.{reclaim_from_consumer, find_dead, reclaim_all, reclaim_dead, sweep}
use auxot.Queue.Sweeper.Sweep.{reclaim_keeps_others, reclaim-IsMap}

module _ (r : Redis) (q : JobQueue) (doc : Documented r q.stream_key q.group_name)
    (h : Heartbeat) where
  abbrev pend : r.Db → Pel
  pend db = r.pending q.stream_key q.group_name db

  -- What the search for dead consumers leaves alone, and that it names none with a heartbeat.
  record Searched (db : r.Db) (found : List Text × r.Db) : Type 0 where
    same : pend found.1 ≡ pend db
    down : All (λ d. r.is_set (key h d) db ≡ false) found.0

  All-map : (P Q : Text → Type 0) (ds : List Text) → ((d : Text) → P d → Q d) → All P ds → All Q ds
  All-map P Q [] f a = tt
  All-map P Q (d ∷ ds) f a = (f d a.0, All-map P Q ds f a.1)

  find_dead-Searched :
      (consumers : Assoc Text ℕ) (db : r.Db) → Searched db (find_dead r h consumers db)
  unfolding find_dead
  find_dead-Searched [] db = record { same = refl; down = tt }
  find_dead-Searched ((c, count) ∷ consumers) db =
      let probe = is_alive r h c db in
      let rest = find_dead-Searched consumers probe.1 in
      let same : pend (find_dead r h consumers probe.1).1 ≡ pend db =
        rest.same ∙ is_alive-Frames r h pend c (doc.exists_pending (key h c)) db in
      let down =
        All-map (λ d. r.is_set (key h d) probe.1 ≡ false) (λ d. r.is_set (key h d) db ≡ false)
          (find_dead r h consumers probe.1).0
          (λ d e.
            sym (
              is_alive-Frames r h (r.is_set (key h d)) c (doc.exists_is_set (key h c) (key h d)) db)
            ∙ e)
          rest.down in
      elim (Bool-cases (nat_beq count 0)) [
        | inl idle ↦ rw idle (find_dead-Searched consumers db)
        | inr holds ↦ elim (Result-cases probe.0) [
          | inl (e, at) ↦ rw (holds, at, find_dead) (record { same = same; down = down })
          | inr (true, at) ↦ rw (holds, at, find_dead) (record { same = same; down = down })
          | inr (false, at) ↦
              rw (holds, at, find_dead)
                (record {
                  same = same;
                  down = (is_alive-false r h c db (doc.exists_ok (key h c) db) at, down);
                })
        ]
      ]

  reclaim_all_keeps :
      (live : List Text) (j : ℕ) (dead : List Text) (i c : Text) (db : r.Db)
      → All (λ d. c ≢ d) dead
      → IsMap (pend db)
      → lookup i (pend db) ≡ some c
      → lookup i (pend (reclaim_all r q live j dead db)) ≡ some c
  unfolding reclaim_all
  reclaim_all_keeps live j [] i c db others u at = at
  reclaim_all_keeps live j (d ∷ dead) i c db others u at =
      let target : Text = get_or live (j % length live) [] in
      reclaim_all_keeps live (j + 1) dead i c (reclaim_from_consumer r q d target db) others.1
        (reclaim-IsMap r q doc d target db u)
        (reclaim_keeps_others r q doc d target i c db u at others.0)

  All-ne :
      (c : Text) (db : r.Db) (ds : List Text)
      → r.is_set (key h c) db ≡ true
      → All (λ d. r.is_set (key h d) db ≡ false) ds
      → All (λ d. c ≢ d) ds
  All-ne c db ds up =
      All-map (λ d. r.is_set (key h d) db ≡ false) (λ d. c ≢ d) ds
        (λ d down e. let no : r.is_set (key h c) db ≡ false = rw e down in cc)

  reclaim_dead_keeps :
      (fuel : ℕ) (dead : List Text) (i c : Text) (db : r.Db)
      → All (λ d. c ≢ d) dead
      → IsMap (pend db)
      → lookup i (pend db) ≡ some c
      → lookup i (pend (reclaim_dead r fuel q h dead db)) ≡ some c
  unfolding reclaim_dead
  reclaim_dead_keeps fuel [] i c db others u at = at
  reclaim_dead_keeps fuel (d ∷ ds) i c db others u at =
      let search = live_worker_ids r fuel h db in
      let same : pend search.1 ≡ pend db =
        live_worker_ids-Frames r h pend doc.scan_pending fuel db in
      elim (Option-cases search.0) [
        | inl e ↦ rw (e, reclaim_dead, same) at
        | inr (error _, e) ↦ rw (e, reclaim_dead, same) at
        | inr (returned [], e) ↦ rw (e, reclaim_dead, same) at
        | inr (returned (l ∷ ls), e) ↦
            rw (e, reclaim_dead)
              (reclaim_all_keeps (l ∷ ls) 0 (d ∷ ds) i c search.1 others (rw same u) (rw same at))
      ]

  -- A sweep leaves each pending entry of a consumer with a heartbeat as it is, whatever Redis
  -- replies and whichever workers the search finds.
  pub sweep_keeps_alive :
      (fuel : ℕ) (i c : Text) (db : r.Db)
      → IsMap (r.pending q.stream_key q.group_name db)
      → lookup i (r.pending q.stream_key q.group_name db) ≡ some c
      → r.is_set (key h c) db ≡ true
      → lookup i (r.pending q.stream_key q.group_name (sweep r fuel q h db)) ≡ some c
  unfolding sweep
  sweep_keeps_alive fuel i c db u at up =
      let step = r.xpending q.stream_key q.group_name db in
      let same : pend step.1 ≡ pend db = doc.xpending_pending db in
      let up' : r.is_set (key h c) step.1 ≡ true = doc.xpending_is_set (key h c) db ∙ up in
      elim (Reply-cases step.0) [
        | inl (f, e) ↦ rw (e, sweep, same) at
        | inr (summary, e) ↦ elim (Bool-cases (nat_beq summary.count 0)) [
          | inl nothing ↦ rw (e, sweep, nothing, same) at
          | inr some_pending ↦
              let search = find_dead r h summary.consumers step.1 in
              let searched = find_dead-Searched summary.consumers step.1 in
              let unchanged : pend search.1 ≡ pend db = searched.same ∙ same in
              rw (e, sweep, some_pending)
                (reclaim_dead_keeps fuel search.0 i c search.1
                  (All-ne c step.1 search.0 up' searched.down) (rw unchanged u) (rw unchanged at))
        ]
      ]
