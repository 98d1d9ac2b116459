-- ===== src/Auth.antt =====
-- pkg/auth/argon2.go: the hashes of keys, and the verifier with its cache. Argon2id
-- (golang.org/x/crypto/argon2, not part of the repository), base64 and fmt's scanning are a
-- parameter. The salt that HashKey draws and `time.Now()` are arguments.
pub mod Hashes
pub mod Cache
pub mod Tests
use auxot.Common.{
  ℕ, ◌+◌, ◌*◌, ◌^◌, ◌≡◌, Bool, true, false, Option, none, some, List, [], ◌∷◌, ◌++◌, Text, codes,
  text_comparable, text_beq, nat_beq, length, ltb, is_empty, not, if◌then◌else◌,
}
use auxot.Common.Assoc.{Assoc, lookup, insert}

pub record Argon2Params : Type 0 where
  pub memory : ℕ
  pub iterations : ℕ
  pub parallelism : ℕ

-- argon2.IDKey with the key's length last, base64.RawStdEncoding, and Sscanf with the format
-- "m=%d,t=%d,p=%d".
pub record Primitives : Type 0 where
  pub id_key : Text → Text → Argon2Params → ℕ → Text
  pub encode : Text → Text
  pub decode : Text → Option Text
  pub scan_params : Text → Option Argon2Params

-- Whether a byte occurs.
abbrev pub elem : ℕ → Text → Bool
elem c [] = false
elem c (b ∷ s) = if nat_beq b c then true else elem c s

-- What their documentation says.
pub record DocumentedAt (a : Primitives) : Type 0 where
  pub decode-encode : (b : Text) → a.decode (a.encode b) ≡ some b
  pub encode_alphabet : (b : Text) → elem 36 (a.encode b) ≡ false
  pub scan :
      a.scan_params (codes "m=65536,t=3,p=4")
      ≡ some (record { memory = 65536; iterations = 3; parallelism = 4 })
  pub id_key-length :
      (key salt : Text) (params : Argon2Params) (n : ℕ) → length (a.id_key key salt params n) ≡ n

pub data Failure : Type 0 where
  parts_count unsupported_algorithm invalid_parameters : Failure
  bad_salt bad_hash not_configured : Failure

pub data Outcome {ℓ} (A : Type ℓ) : Type ℓ where
  ok : A → Outcome A
  failed : Failure → Outcome A

-- `strings.Split(s, sep)` for a separator of one byte.
unfoldable pub split : ℕ → Text → List Text
split sep [] = [] ∷ []
split sep (b ∷ s) = if nat_beq b sep then [] ∷ split sep s else onto b (split sep s)
  where
    onto : ℕ → List Text → List Text
    onto b [] = (b ∷ []) ∷ []
    onto b (part ∷ parts) = (b ∷ part) ∷ parts

pub record Phc : Type 0 where
  pub salt : Text
  pub params : Argon2Params
  pub hash : Text

abbrev pub own_params : Argon2Params
own_params = record { memory = 65536; iterations = 3; parallelism = 4 }

abbrev pub key_length : ℕ
key_length = 32

module _ (a : Primitives) where
  unfoldable pub hash_key : Text → Text → Text
  hash_key salt key =
      codes "$argon2id$v=19$m=65536,t=3,p=4$"
      ++ (a.encode salt ++ (codes "$" ++ a.encode (a.id_key key salt own_params key_length)))

  decode_parts : Text → Text → Text → Outcome Phc
  decode_parts params salt hash = elim (a.scan_params params) [
    | none ↦ failed invalid_parameters
    | some scanned ↦ elim (a.decode salt) [
      | none ↦ failed bad_salt
      | some salt' ↦ elim (a.decode hash) [
        | none ↦ failed bad_hash
        | some hash' ↦ ok (record { salt = salt'; params = scanned; hash = hash' })
      ]
    ]
  ]

  -- The checks on the six parts.
  parse_parts : List Text → Outcome Phc
  unfolding decode_parts
  parse_parts (start ∷ algorithm ∷ version ∷ params ∷ salt ∷ hash ∷ []) =
      if not (text_beq algorithm (codes "argon2id"))
      then failed unsupported_algorithm
      else decode_parts params salt hash
  parse_parts parts = failed parts_count

  unfoldable pub parse_phc : Text → Outcome Phc
  unfolding parse_parts
  parse_phc phc = parse_parts (split 36 phc)

  unfoldable pub verify_key : Text → Text → Outcome Bool
  verify_key key phc_hash = elim (parse_phc phc_hash) [
    | failed f ↦ failed f
    | ok phc ↦
        let computed : Text = a.id_key key phc.salt phc.params (length phc.hash) in
        ok (text_beq computed phc.hash)
  ]

pub record CacheEntry : Type 0 where
  pub valid : Bool
  pub expires_at : ℕ

pub record Verifier : Type 0 where
  pub admin_hash : Text
  pub api_hash : Text
  pub tools_hash : Text
  pub cache : Assoc Text CacheEntry
  pub ttl : ℕ

unfoldable pub new_verifier_with_tools : Text → Text → Text → ℕ → Verifier
new_verifier_with_tools admin_hash api_hash tools_hash ttl = record {
  admin_hash = admin_hash;
  api_hash = api_hash;
  tools_hash = tools_hash;
  cache = [];
  ttl = ttl;
}

abbrev pub cache_key : Text → Text → Text
cache_key key hash = key ++ 124 ∷ hash

-- The cached result, if it has not expired.
cached : ℕ → Option CacheEntry → Option Bool
cached now none = none
cached now (some entry) = if ltb now entry.expires_at then some entry.valid else none

module _ (a : Primitives) where
  unfoldable pub verify_with_cache : ℕ → Text → Text → Verifier → Outcome Bool × Verifier
  unfolding cached
  verify_with_cache now key hash v = elim (cached now (lookup (cache_key key hash) v.cache)) [
    | some valid ↦ (ok valid, v)
    | none ↦ elim (verify_key a key hash) [
      | failed f ↦ (failed f, v)
      | ok valid ↦ (
        ok valid,
        record v {
          cache =
              insert (cache_key key hash) (record { valid = valid; expires_at = now + v.ttl })
                v.cache;
        },
      )
    ]
  ]

  unfoldable pub verify_admin_key : ℕ → Text → Verifier → Outcome Bool × Verifier
  verify_admin_key now key v =
      if is_empty v.admin_hash
      then (failed not_configured, v)
      else verify_with_cache now key v.admin_hash v

  unfoldable pub verify_api_key : ℕ → Text → Verifier → Outcome Bool × Verifier
  verify_api_key now key v =
      if is_empty v.api_hash
      then (failed not_configured, v)
      else verify_with_cache now key v.api_hash v

  unfoldable pub verify_tool_key : ℕ → Text → Verifier → Outcome Bool × Verifier
  verify_tool_key now key v =
      if is_empty v.tools_hash then (ok false, v) else verify_with_cache now key v.tools_hash v

unfoldable pub tools_key_configured : Verifier → Bool
tools_key_configured v = not (is_empty v.tools_hash)
