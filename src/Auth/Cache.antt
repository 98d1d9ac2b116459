-- ===== src/Auth/Cache.antt =====
-- pkg/auth/argon2.go: the cache never changes an answer.
use auxot.Common.{
  ℕ, ◌+◌, ◌≡◌, refl, sym, ◌∙◌, ap, inl, inr, Bool, true, false, Option, none, some, List, [], ◌∷◌,
  ◌++◌, map, Text, text_comparable, is_empty, if◌then◌else◌, Bool-cases, Option-cases, arith, ◌⊎◌,
}
use auxot.Common.Assoc.{Assoc, lookup, Each, insert-Each, Each-nil}
use auxot.Auth.{
  Primitives, Outcome, ok, failed, Failure, not_configured, Verifier, CacheEntry, cache_key, cached,
  elem, verify_key, verify_with_cache, verify_admin_key, verify_api_key, verify_tool_key,
  new_verifier_with_tools,
}

Outcome-cases :
    {A : Type 0} (o : Outcome A) → ((f : Failure) × (o ≡ failed f)) ⊎ ((x : A) × (o ≡ ok x))
Outcome-cases (ok x) = inr (x, refl)
Outcome-cases (failed f) = inl (f, refl)

elem-append : (c : ℕ) (s t : Text) → elem c (s ++ c ∷ t) ≡ true
elem-append c [] t = ground arith
elem-append c (b ∷ s) t = ground (arith, elem-append c s t)

-- A cache key stands for one key and one hash, if the hashes have no `|`.
cache_key_injective :
    (key other hash hash' : Text)
    → elem 124 hash ≡ false
    → elem 124 hash' ≡ false
    → cache_key key hash ≡ cache_key other hash'
    → (key ≡ other) × (hash ≡ hash')
cache_key_injective [] [] hash hash' n n' e = (refl, cc)
cache_key_injective [] (b ∷ other) hash hash' n n' e =
    let tail : hash ≡ other ++ 124 ∷ hash' = cc in
    let no : true ≡ false = sym (elem-append 124 other hash') ∙ ap (elem 124) (sym tail) ∙ n in cc
cache_key_injective (b ∷ key) [] hash hash' n n' e =
    let tail : key ++ 124 ∷ hash ≡ hash' = cc in
    let no : true ≡ false = sym (elem-append 124 key hash) ∙ ap (elem 124) tail ∙ n' in cc
cache_key_injective (b ∷ key) (c ∷ other) hash hash' n n' e =
    let head : b ≡ c = cc in
    let tail : key ++ 124 ∷ hash ≡ other ++ 124 ∷ hash' = cc in
    let (k, h) = cache_key_injective key other hash hash' n n' tail in (rw (head, k), h)

module _ (a : Primitives) where
  -- An entry holds what VerifyKey says of some key and hash that its cache key is made of.
  pub record IsTrue (k : Text) (entry : CacheEntry) : Type 0 where
    key : Text
    hash : Text
    made_of : k ≡ cache_key key hash
    no_bar : elem 124 hash ≡ false
    says : verify_key a key hash ≡ ok entry.valid

  hit_says :
      (key hash : Text) (entry : CacheEntry) (v : Verifier)
      → elem 124 hash ≡ false
      → Each IsTrue v.cache
      → lookup (cache_key key hash) v.cache ≡ some entry
      → verify_key a key hash ≡ ok entry.valid
  hit_says key hash entry v bar entries e =
      let t = entries (cache_key key hash) entry e in
      let (k, h) = cache_key_injective key t.key hash t.hash bar t.no_bar t.made_of in
      rw (k, h) t.says

  cached_from :
      (now : ℕ) (o : Option CacheEntry) (valid : Bool)
      → cached now o ≡ some valid
      → (entry : CacheEntry) × (o ≡ some entry) × (entry.valid ≡ valid)
  unfolding cached
  cached_from now none valid h = cc
  cached_from now (some entry) valid h = (entry, refl, ground arith)

  -- One call.
  verify_with_cache_lem :
      (now : ℕ) (key hash : Text) (v : Verifier)
      → elem 124 hash ≡ false
      → Each IsTrue v.cache
      → let (answer, v') = verify_with_cache a now key hash v in
        (answer ≡ verify_key a key hash)
        × Each IsTrue v'.cache
        × (v' ≡ record v { cache = v'.cache })
  unfolding verify_with_cache
  verify_with_cache_lem now key hash v bar s =
      elim (Option-cases (cached now (lookup (cache_key key hash) v.cache))) [
        | inr (valid, hit) ↦
            let (entry, found, same) = cached_from now _ valid hit in
            rw (hit, verify_with_cache)
              (sym (hit_says key hash entry v bar s found ∙ ap ok same), s, refl)
        | inl miss ↦ elim (Outcome-cases (verify_key a key hash)) [
          | inl (f, e) ↦ rw (miss, verify_with_cache, e) (refl, s, refl)
          | inr (valid, e) ↦
              rw (miss, verify_with_cache, e)
                (
                  refl,
                  insert-Each IsTrue (cache_key key hash)
                      (record { valid = valid; expires_at = now + v.ttl }) v.cache
                      (record { key = key; hash = hash; made_of = refl; no_bar = bar; says = e }) s,
                  refl,
                )
        ]
      ]

  -- A call of one of the three methods, with its time and key.
  pub data Call : Type 0 where
    admin api tools : ℕ → Text → Call

  pub answer : Call → Verifier → Outcome Bool × Verifier
  answer (admin now key) v = verify_admin_key a now key v
  answer (api now key) v = verify_api_key a now key v
  answer (tools now key) v = verify_tool_key a now key v

  pub answers : List Call → Verifier → List (Outcome Bool)
  unfolding answer
  answers [] v = []
  answers (c ∷ calls) v = let (o, v') = answer c v in o ∷ answers calls v'

  -- What a call answers without a cache.
  pub direct : Verifier → Call → Outcome Bool
  direct v (admin now key) =
      if is_empty v.admin_hash then failed not_configured else verify_key a key v.admin_hash
  direct v (api now key) =
      if is_empty v.api_hash then failed not_configured else verify_key a key v.api_hash
  direct v (tools now key) =
      if is_empty v.tools_hash then ok false else verify_key a key v.tools_hash

  -- No configured hash has a `|`.
  pub record NoBar (v : Verifier) : Type 0 where
    pub admin : elem 124 v.admin_hash ≡ false
    pub api : elem 124 v.api_hash ≡ false
    pub tools : elem 124 v.tools_hash ≡ false

  -- What one call does, in terms of the verifier without its cache.
  Honest : Call → Verifier → Type 0
  Honest c v =
      ((answer c v).0 ≡ direct v c)
      × Each IsTrue (answer c v).1.cache
      × ((answer c v).1 ≡ record v { cache = (answer c v).1.cache })

  answer-Honest : (c : Call) (v : Verifier) → NoBar v → Each IsTrue v.cache → Honest c v
  unfolding answer direct verify_admin_key verify_api_key verify_tool_key Honest
  answer-Honest (admin now key) v bars s = elim (Bool-cases (is_empty v.admin_hash)) [
    | inl none_set ↦ rw (none_set, verify_admin_key) (refl, s, refl)
    | inr set ↦
        rw (set, verify_admin_key) (verify_with_cache_lem now key v.admin_hash v bars.admin s)
  ]
  answer-Honest (api now key) v bars s = elim (Bool-cases (is_empty v.api_hash)) [
    | inl none_set ↦ rw (none_set, verify_api_key) (refl, s, refl)
    | inr set ↦ rw (set, verify_api_key) (verify_with_cache_lem now key v.api_hash v bars.api s)
  ]
  answer-Honest (tools now key) v bars s = elim (Bool-cases (is_empty v.tools_hash)) [
    | inl none_set ↦ rw (none_set, verify_tool_key) (refl, s, refl)
    | inr set ↦
        rw (set, verify_tool_key) (verify_with_cache_lem now key v.tools_hash v bars.tools s)
  ]

  direct-cache :
      (m : Assoc Text CacheEntry) (v : Verifier) (c : Call)
      → direct (record v { cache = m }) c ≡ direct v c
  unfolding direct
  direct-cache m v (admin now key) = refl
  direct-cache m v (api now key) = refl
  direct-cache m v (tools now key) = refl

  answers-with :
      (calls : List Call) (u v : Verifier)
      → NoBar u
      → Each IsTrue v.cache
      → v ≡ record u { cache = v.cache }
      → answers calls v ≡ map (direct u) calls
  unfolding answers Honest
  answers-with [] u v bars s e = refl
  answers-with (c ∷ calls) u v bars s e =
      let bars' : NoBar v = record {
        admin = ap (λ x. elem 124 x.admin_hash) e ∙ bars.admin;
        api = ap (λ x. elem 124 x.api_hash) e ∙ bars.api;
        tools = ap (λ x. elem 124 x.tools_hash) e ∙ bars.tools;
      } in
      let (same, entries, kept) = answer-Honest c v bars' s in
      let v' = (answer c v).1 in
      let one : (answer c v).0 ≡ direct u c =
        same ∙ ap (λ x. direct x c) e ∙ direct-cache v.cache u c in
      let kept' : v' ≡ record u { cache = v'.cache } =
        kept ∙ ap {A = Verifier} {B = Verifier} (λ x. record x { cache = v'.cache }) e in
      rw (one, answers-with calls u v' bars entries kept')

  -- However often and at whatever times the keys are verified, every answer of a new verifier is what
  -- it would be without the cache, if none of the configured hashes holds the byte `|` that joins
  -- keys and hashes in the cache.
  pub answers-new_verifier_with_tools :
      (admin_hash api_hash tools_hash : Text) (ttl : ℕ) (calls : List Call)
      → elem 124 admin_hash ≡ false
      → elem 124 api_hash ≡ false
      → elem 124 tools_hash ≡ false
      → let v = new_verifier_with_tools admin_hash api_hash tools_hash ttl in
        answers calls v ≡ map (direct v) calls
  unfolding new_verifier_with_tools
  answers-new_verifier_with_tools admin_hash api_hash tools_hash ttl calls na np nt =
      let v = new_verifier_with_tools admin_hash api_hash tools_hash ttl in
      answers-with calls v v (record { admin = na; api = np; tools = nt }) (Each-nil IsTrue) refl
