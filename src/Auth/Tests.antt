-- ===== src/Auth/Tests.antt =====
-- pkg/auth: runs, and the theorems at inputs that meet their hypotheses.
use auxot.Common.{
  ℕ, zero, suc, ◌+◌, ◌≡◌, refl, true, false, Option, none, some, [], ◌∷◌, map, Text, codes,
  text_comparable, text_beq, if◌then◌else◌, nat_beq, length, ap, ◌∙◌, arith, inl, inr, Option-cases,
}
use auxot.Auth.{
  Primitives, Argon2Params, DocumentedAt, ok, elem, own_params, hash_key, verify_key,
  verify_tool_key, new_verifier_with_tools, tools_key_configured,
}
use auxot.Auth.Hashes.{verify_key-hash_key}
use auxot.Auth.Cache.{admin, api, answers, direct, answers-new_verifier_with_tools}

-- A hash that is the key's first bytes, padded, and a code in the place of base64 that writes a byte
-- in unary, by `a`s and a `b`.
abbrev padded : ℕ → Text → Text
padded zero s = []
padded (suc n) [] = 0 ∷ padded n []
padded (suc n) (c ∷ s) = c ∷ padded n s

abbrev unary : ℕ → Text → Text
unary zero s = 98 ∷ s
unary (suc n) s = 97 ∷ unary n s

abbrev encode : Text → Text
encode [] = []
encode (c ∷ s) = unary c (encode s)

abbrev decode_from : ℕ → Text → Option Text
decode_from n [] = some []
decode_from n (c ∷ s) =
    if nat_beq c 97
    then decode_from (suc n) s
    else elim (decode_from 0 s) [ none ↦ none | some t ↦ some (n ∷ t) ]

abbrev scan : Text → Option Argon2Params
scan s = if text_beq s (codes "m=65536,t=3,p=4") then some own_params else none

abbrev toy : Primitives
toy = record {
  id_key = λ key salt params n. padded n key;
  encode = encode;
  decode = decode_from 0;
  scan_params = scan;
}

-- What has been read is put in front of the rest.
abbrev in_front : ℕ → Option Text → Option Text
in_front n none = none
in_front n (some t) = some (n ∷ t)

decode_from-unary :
    (k n : ℕ) (s : Text) → decode_from n (unary k s) ≡ in_front (k + n) (decode_from 0 s)
decode_from-unary zero n s = elim (Option-cases (decode_from 0 s)) [
  | inl e ↦ rw e
  | inr (t, e) ↦ let same : 0 + n ≡ n = omega arith in rw (e, same)
]
decode_from-unary (suc k) n s =
    let step : k + suc n ≡ suc k + n = omega arith in
    decode_from-unary k (suc n) s ∙ ap (λ i. in_front i (decode_from 0 s)) step

decode-encode : (b : Text) → decode_from 0 (encode b) ≡ some b
decode-encode [] = refl
decode-encode (c ∷ s) =
    let same : c + 0 ≡ c = omega arith in
    decode_from-unary c 0 (encode s) ∙ rw (decode-encode s, same)

elem-unary : (k : ℕ) (s : Text) → elem 36 (unary k s) ≡ elem 36 s
elem-unary zero s = refl
elem-unary (suc k) s = elem-unary k s

elem-encode : (b : Text) → elem 36 (encode b) ≡ false
elem-encode [] = refl
elem-encode (c ∷ s) = elem-unary c (encode s) ∙ elem-encode s

length-padded : (n : ℕ) (s : Text) → length (padded n s) ≡ n
length-padded zero s = refl
length-padded (suc n) [] = ap suc (length-padded n [])
length-padded (suc n) (c ∷ s) = ap suc (length-padded n s)

toy-DocumentedAt : DocumentedAt toy
toy-DocumentedAt = record {
  decode-encode = decode-encode;
  encode_alphabet = elem-encode;
  scan = refl;
  id_key-length = λ key salt params n. length-padded n key;
}

no_tools : (verify_tool_key toy 3 (codes "k") (new_verifier_with_tools [] [] [] 60)).0 ≡ ok false
unfolding verify_tool_key new_verifier_with_tools
no_tools = refl

unset : tools_key_configured (new_verifier_with_tools [] [] [] 60) ≡ false
unfolding tools_key_configured new_verifier_with_tools
unset = refl

verify_key-hash_key_example :
    (verify_key toy (codes "adm_k") (hash_key toy (codes "s") (codes "adm_k")) ≡ ok true)
    × (verify_key toy (codes "adm_l") (hash_key toy (codes "s") (codes "adm_k")) ≡ ok false)
verify_key-hash_key_example =
    verify_key-hash_key toy toy-DocumentedAt (codes "s") (codes "adm_k") (codes "adm_l")

answers-new_verifier_with_tools_example :
    let v = new_verifier_with_tools (codes "$a") (codes "$b") [] 60 in
    let calls = admin 1 (codes "k") ∷ admin 2 (codes "k") ∷ api 70 (codes "k") ∷ [] in
    answers toy calls v ≡ map (direct toy v) calls
answers-new_verifier_with_tools_example =
    answers-new_verifier_with_tools toy (codes "$a") (codes "$b") [] 60
      (admin 1 (codes "k") ∷ admin 2 (codes "k") ∷ api 70 (codes "k") ∷ []) refl refl refl
