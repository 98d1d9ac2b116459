-- ===== src/Auth/Hashes.antt =====
-- pkg/auth/argon2.go: a hash that HashKey makes is one that VerifyKey reads.
use auxot.Common.{
  ℕ, ◌≡◌, refl, ap, true, false, [], ◌∷◌, ◌++◌, Text, text_beq, text_beq_iff, text_comparable,
  nat_beq, arith,
}
use auxot.Auth.{
  Primitives, DocumentedAt, ok, own_params, key_length, hash_key, split, elem, decode_parts,
  parse_parts, parse_phc, verify_key,
}

-- A part without the separator is split off whole.
split-append :
    (sep : ℕ) (part rest : Text)
    → elem sep part ≡ false
    → split sep (part ++ sep ∷ rest) ≡ part ∷ split sep rest
unfolding split
split-append sep [] rest h = ground arith
split-append sep (b ∷ part) rest h =
    let miss : nat_beq b sep ≡ false = ground arith in
    rw (miss, split-append sep part rest (ground arith))

split_last : (sep : ℕ) (part : Text) → elem sep part ≡ false → split sep part ≡ part ∷ []
unfolding split
split_last sep [] h = refl
split_last sep (b ∷ part) h =
    let miss : nat_beq b sep ≡ false = ground arith in rw (miss, split_last sep part (ground arith))

module _ (a : Primitives) (doc : DocumentedAt a) where
  parse_phc-hash_key :
      (salt key : Text)
      → parse_phc a (hash_key a salt key)
        ≡ ok (record {
          salt = salt;
          params = own_params;
          hash = a.id_key key salt own_params key_length;
        })
  unfolding parse_phc parse_parts hash_key decode_parts split
  parse_phc-hash_key salt key =
      let hash = a.id_key key salt own_params key_length in
      rw (
        parse_phc,
        split-append 36 (a.encode salt) (a.encode hash) (doc.encode_alphabet salt),
        split_last 36 (a.encode hash) (doc.encode_alphabet hash),
        decode_parts,
        doc.scan,
        doc.decode-encode,
        doc.decode-encode,
      )

  -- VerifyKey accepts a hash that HashKey made, with any salt, for the key that it made it of; for
  -- another key its answer is whether Argon2id gives both keys the same hash under that salt.
  pub verify_key-hash_key :
      (salt key other : Text)
      → (verify_key a key (hash_key a salt key) ≡ ok true)
        × (verify_key a other (hash_key a salt key)
            ≡ ok (
                text_beq
                  (a.id_key other salt own_params key_length)
                  (a.id_key key salt own_params key_length)))
  unfolding verify_key
  verify_key-hash_key salt key other =
      let long = doc.id_key-length key salt own_params key_length in
      let hash = a.id_key key salt own_params key_length in
      (
        rw (verify_key, parse_phc-hash_key salt key, long)
            (ap ok ((text_beq_iff hash hash).1 refl)),
        rw (verify_key, parse_phc-hash_key salt key, long),
      )
