-- ===== src/Api/Events/Rounds.antt =====
-- internal/router/apihandler.go and internal/router/anthropichandler.go: how the events of a stream
-- are spread over the readings does not matter.
use auxot.Common.{
  ℕ, ◌≡◌, refl, sym, ap, ◌∙◌, false, Option, none, some, List, [], ◌∷◌, ◌++◌, append_assoc, Text,
}
use auxot.Common.Int.{pos}
use auxot.Queue.Redis.{Redis}
use auxot.Queue.Jobs.{returned}
use auxot.Queue.Tokens.{TokenStream, TokenEvent, TokenStreamEntry, EventCodec, read_tokens}
use auxot.Api.Events.{
  Decoder, Kind, kind_of, Turn, goes_on, returns, Moment, Endings, is_past, before, then_follow,
  process, follow,
}

abbrev last_of : Text → List TokenStreamEntry → Text
last_of last_id [] = last_id
last_of last_id (entry ∷ entries) = last_of entry.id entries

module _ (r : Redis) (c : EventCodec) (ts : TokenStream) (job_id : Text) (deadline : Option ℕ) where
  -- Rounds that are not cut short, with all the entries that they read.
  pub data Reads : List (Moment r) → Text → List TokenStreamEntry → Type 0 where
    no_more : (last_id : Text) → Reads [] last_id []
    round :
        (m : Moment r) (ms : List (Moment r)) (last_id : Text)
        (entries rest : List TokenStreamEntry)
        → m.cancelled ≡ false
        → is_past m.now deadline ≡ false
        → (read_tokens r c ts job_id last_id (pos 100) (pos 1_000_000_000) m.db).0
          ≡ returned entries
        → Reads ms (last_of last_id entries) rest
        → Reads (m ∷ ms) last_id (entries ++ rest)

-- The entries' events, decoded.
abbrev pub kinds : Decoder → List TokenStreamEntry → List Kind
kinds d [] = []
kinds d (entry ∷ entries) = kind_of d entry.event ∷ kinds d entries

module _ {ℓ κ} {S : Type ℓ} {O : Type κ} where
  abbrev pub then_run : Turn S O → (S → List O) → List O
  then_run (returns out) next = out
  then_run (goes_on out s) next = out ++ next s

  before-then_run :
      (t : Turn S O) (f : S → List O) (next : S → List O × Option (Text × S))
      (later : Text → S → List O)
      → ((s : S) → f s ≡ then_follow (next s) later)
      → then_run t f ≡ then_follow (before t next) later
  before-then_run (returns out) f next later h = refl
  before-then_run (goes_on out s) f next later h = ap (λ l. out ++ l) (h s) ∙ joined (next s)
    where
      joined :
          (done : List O × Option (Text × S))
          → out ++ then_follow done later ≡ then_follow (out ++ done.0, done.1) later
      joined (written, none) = refl
      joined (written, some (last_id, s')) = sym (append_assoc out written _)

  module _ (on_kind : Kind → S → Turn S O) where
    -- The handler on a list of events, however they were read.
    unfoldable pub run : List Kind → S → List O
    run [] s = []
    run (k ∷ ks) s = then_run (on_kind k s) (run ks)

  module _ (on_kind : Kind → S → Turn S O) (d : Decoder) where
    abbrev on_event : TokenEvent → S → Turn S O
    on_event event = on_kind (kind_of d event)

    pub run-process :
        (entries rest : List TokenStreamEntry) (last_id : Text) (s : S)
        → run on_kind (kinds d (entries ++ rest)) s
          ≡ then_follow (process on_event entries last_id s) (λ _. run on_kind (kinds d rest))
    unfolding run process
    run-process [] rest last_id s = refl
    run-process (entry ∷ entries) rest last_id s =
        before-then_run (on_event entry.event s) _ _ _ (run-process entries rest entry.id)

    -- What is done next begins at the last of the entries.
    then_follow-process :
        (entries : List TokenStreamEntry) (last_id : Text) (s : S) (f : Text → S → List O)
        (g : S → List O)
        → ((s : S) → f (last_of last_id entries) s ≡ g s)
        → then_follow (process on_event entries last_id s) f
          ≡ then_follow (process on_event entries last_id s) (λ _. g)
    unfolding process
    then_follow-process [] last_id s f g h = h s
    then_follow-process (entry ∷ entries) last_id s f g h =
        turned (on_event entry.event s) (λ s'. then_follow-process entries entry.id s' f g h)
      where
        joined :
            (out : List O) (done : List O × Option (Text × S))
            → then_follow done f ≡ then_follow done (λ _. g)
            → then_follow (out ++ done.0, done.1) f ≡ then_follow (out ++ done.0, done.1) (λ _. g)
        joined out (written, none) e = refl
        joined out (written, some (last_id', s')) e =
            append_assoc out written _ ∙ ap (λ l. out ++ l) e ∙ sym (append_assoc out written _)

        turned :
            (t : Turn S O)
            → ((s : S)
                → then_follow (process on_event entries entry.id s) f
                  ≡ then_follow (process on_event entries entry.id s) (λ _. g))
            → then_follow (before t (process on_event entries entry.id)) f
              ≡ then_follow (before t (process on_event entries entry.id)) (λ _. g)
        turned (returns out) ih = refl
        turned (goes_on out s') ih = joined out (process on_event entries entry.id s') (ih s')

    -- While no round is cut short, the loop writes what the handler writes on all the entries in
    -- order, however the readings divide them.
    pub follow-run :
        (r : Redis) (c : EventCodec) (ts : TokenStream) (job_id : Text) (deadline : Option ℕ)
        (endings : Endings O) (moments : List (Moment r)) (last_id : Text)
        (entries : List TokenStreamEntry) (s : S)
        → Reads r c ts job_id deadline moments last_id entries
        → follow on_event r c ts job_id deadline endings moments last_id s
          ≡ run on_kind (kinds d entries) s
    unfolding follow run
    follow-run r c ts job_id deadline endings moments last_id entries s (no_more _) = refl
    follow-run r c ts job_id deadline endings moments last_id entries s
          (round m ms _ first rest quiet early read more) =
        rw (quiet, early, read)
          (then_follow-process first last_id s _ (run on_kind (kinds d rest))
              (λ s'. follow-run r c ts job_id deadline endings ms _ rest s' more)
            ∙ sym (run-process first rest last_id s))
