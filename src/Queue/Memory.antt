-- ===== src/Queue/Memory.antt =====
-- A small Redis in memory with one job stream. It shows that the documented effects can be met
-- together, and runs the tests. It has no clock: nothing expires, and XAUTOCLAIM claims nothing.
use auxot.Common.{
  ℕ, ◌+◌, ◌≡◌, refl, List, [], ◌∷◌, ◌++◌, map, Text, codes, true, text_comparable, text_beq, length,
  take, drop, arith, ltb, if◌then◌else◌, equal_refl,
}
use auxot.Common.Assoc.{Assoc, insert, erase}
use auxot.Queue.Redis.{
  Redis, Documented, Reply, ok, failed, nil_reply, XMessage, XStream, Pel, claimed, dropped, held,
  contains,
}

-- The next message's number, the job stream's pending and waiting entries, all messages added, and
-- the keys that are set.
pub record Store : Type 0 where
  pub next : ℕ
  pub pel : Pel
  pub queue : List XMessage
  pub log : Assoc Text (Assoc Text Text)
  pub beats : List Text

abbrev pub logged : Text → Assoc Text (Assoc Text Text) → List (Assoc Text Text)
logged k [] = []
logged k ((j, values) ∷ log) = if text_beq j k then values ∷ logged k log else logged k log

abbrev without : Text → List Text → List Text
without k [] = []
without k (j ∷ js) = if text_beq j k then without k js else j ∷ without k js

abbrev pub count_of : Text → Assoc Text ℕ → ℕ
count_of c [] = 0
count_of c ((d, n) ∷ m) = if text_beq d c then n else count_of c m

-- XPENDING's summary.
abbrev counted : Pel → Assoc Text ℕ
counted [] = []
counted ((i, c) ∷ m) = let rest = counted m in insert c (count_of c rest + 1) rest

abbrev added : Text → Text → Assoc Text Text → Store → Store
added key k values s = record s {
  next = s.next + 1;
  queue =
      if text_beq k key
      then s.queue ++ record { id = s.next ∷ []; values = values } ∷ []
      else s.queue;
  log = s.log ++ (k, values) ∷ [];
}

abbrev deliver : Text → Text → ℕ → List XMessage → Store → Reply (List XStream) × Store
deliver key consumer count [] s = (failed nil_reply, s)
deliver key consumer count (m ∷ ms) s = (
  ok (record { stream = key; messages = take count (m ∷ ms) } ∷ []),
  record s {
    pel = s.pel ++ map (λ x. (x.id, consumer)) (take count (m ∷ ms));
    queue = drop count (m ∷ ms);
  },
)

-- The Redis with the job stream `key`.
abbrev pub memory : Text → Redis
memory key = record {
  Db = Store;
  xgroup_create_mkstream = λ k g id s. (ok tt, s);
  xadd = λ k values s. (ok (s.next ∷ []), added key k values s);
  xreadgroup = λ g c k id count block s.
      if text_beq id (codes ">") then deliver k c count s.queue s else (failed nil_reply, s);
  xread = λ k id count block s. (failed nil_reply, s);
  xack = λ k g id s. (ok 1, record s { pel = erase id s.pel });
  xdel = λ k id s. (ok 1, s);
  xlen = λ k s. (ok (length s.queue), s);
  xautoclaim = λ k g c idle id count s. (ok [], s);
  xpending = λ k g s. (ok (record { count = length s.pel; consumers = counted s.pel }), s);
  xpending_ext = λ k g a b count c s. (ok (take count (held c s.pel)), s);
  xclaim = λ k g c idle ids s. (ok [], record s { pel = claimed ids c s.pel });
  xgroup_delconsumer = λ k g c s. (ok 0, record s { pel = dropped c s.pel });
  set = λ k v ttl s. (ok tt, record s { beats = k ∷ s.beats });
  exists = λ k s. (ok (if contains s.beats k then 1 else 0), s);
  del = λ k s. (ok 1, record s { beats = without k s.beats });
  scan = λ cursor pattern count s. (ok (s.beats, 0), s);
  expire = λ k ttl s. (ok true, s);
  pending = λ k g s. s.pel;
  waiting = λ k g s. s.queue;
  history = λ k s. logged k s.log;
  is_set = λ k s. contains s.beats k;
}

logged-append :
    (k j : Text) (values : Assoc Text Text) (log : Assoc Text (Assoc Text Text))
    → logged k (log ++ (j, values) ∷ [])
      ≡ (if text_beq j k then logged k log ++ values ∷ [] else logged k log)
logged-append k j values [] = refl
logged-append k j values ((i, v) ∷ log) = ground (arith, logged-append k j values log)

exists_law :
    (k : Text) (beats : List Text) (n : ℕ)
    → ok (if contains beats k then 1 else 0) ≡ ok n
    → ltb 0 n ≡ contains beats k
exists_law k beats n h = ground arith

delivered :
    (key consumer : Text) (count : ℕ) (queue : List XMessage) (s : Store) (results : List XStream)
    → (deliver key consumer count queue s).0 ≡ ok results
    → (results ≡ record { stream = key; messages = take count queue } ∷ [])
      × ((deliver key consumer count queue s).1.queue ≡ drop count queue)
      × ((deliver key consumer count queue s).1.pel
          ≡ s.pel ++ map (λ m. (m.id, consumer)) (take count queue))
delivered key consumer count [] s results h = cc
delivered key consumer count (m ∷ ms) s results h = (ground arith, refl, refl)

added_law :
    (key id : Text) (values : Assoc Text Text) (s : Store)
    → ok (s.next ∷ []) ≡ ok id
    → (added key key values s).queue ≡ s.queue ++ record { id = id; values = values } ∷ []
added_law key id values s h = ground (arith, equal_refl key)

-- The documented effects hold of it.
pub memory-Documented : (key group : Text) → Documented (memory key) key group
memory-Documented key group = record {
  xack_pending = λ id db. refl;
  xdel_pending = λ id db. refl;
  xadd_pending = λ k values db. refl;
  expire_pending = λ k ttl later db. refl;
  exists_pending = λ k db. refl;
  scan_pending = λ cursor pattern count db. refl;
  xpending_pending = λ db. refl;
  xpending_ext_pending = λ count consumer db. refl;
  xpending_ext_ok = λ count consumer db ids h. ground arith;
  xclaim_pending = λ consumer ids db. refl;
  xgroup_delconsumer_pending = λ consumer db. refl;
  xreadgroup_new =
      λ consumer count block db results. delivered key consumer count db.queue db results;
  xadd_waiting = λ values db id h. added_law key id values db h;
  xadd_history = λ k other values db. logged-append other k values db.log;
  xack_history = λ id k db. refl;
  xdel_history = λ id k ne db. refl;
  expire_history = λ k ttl j later db. refl;
  exists_ok = λ k db. exists_law k db.beats;
  xpending_is_set = λ j db. refl;
  exists_is_set = λ k j db. refl;
}
