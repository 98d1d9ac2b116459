-- ===== src/LlamaCpp/Keys.antt =====
-- pkg/llamacpp/sanitize.go: the keys that are left of a property's definition.
use auxot.Common.{
  ◌≡◌, refl, sym, subst, ◌∙◌, ap, true, false, Option, none, some, [], ◌∷◌, Text, codes, text_beq,
  text_beq-eq, text_comparable, is_some, if◌then◌else◌, arith, inl, inr, Bool-cases, Option-cases,
}
use auxot.Common.Assoc.{Assoc, lookup, lookup-insert, lookup-insert_self}
use auxot.LlamaCpp.{Schemas, is_allowed, allowed_in, strip_to_allowed_keys}

module _ (j : Schemas) where
  lookup-allowed_in :
      (k : Text) (m : Assoc Text j.Value)
      → lookup k (allowed_in j m) ≡ (if is_allowed k then lookup k m else none)
  unfolding allowed_in lookup
  lookup-allowed_in k [] = ground arith
  lookup-allowed_in k ((i, v) ∷ m) = elim (Bool-cases (text_beq i k)) [
    | inl same ↦ elim (Bool-cases (is_allowed k)) [
      | inl allowed ↦
          let kept : is_allowed i ≡ true = ap is_allowed (text_beq-eq i k same) ∙ allowed in
          rw (allowed_in, kept, allowed, same) refl
      | inr banned ↦
          let left_out : is_allowed i ≡ false = ap is_allowed (text_beq-eq i k same) ∙ banned in
          rw (allowed_in, left_out, banned) (lookup-allowed_in k m ∙ rw banned refl)
    ]
    | inr other ↦ elim (Bool-cases (is_allowed i)) [
      | inl allowed ↦ rw (allowed_in, allowed, other) (lookup-allowed_in k m)
      | inr banned ↦ rw (allowed_in, banned, other) (lookup-allowed_in k m)
    ]
  ]

  -- The value of an allowed key, where a type that is missing is "string".
  abbrev pub or_string : Text → Option j.Value → Option j.Value
  or_string k (some v) = some v
  or_string k none =
      if text_beq (codes "type") k then some (j.from_string (codes "string")) else none

  lookup-type :
      (m : Assoc Text j.Value)
      → lookup (codes "type") (strip_to_allowed_keys j m)
        ≡ or_string (codes "type") (lookup (codes "type") m)
  unfolding strip_to_allowed_keys is_allowed
  lookup-type m =
      let same : lookup (codes "type") (allowed_in j m) ≡ lookup (codes "type") m =
        lookup-allowed_in (codes "type") m in
      elim (Option-cases (lookup (codes "type") m)) [
        | inl e ↦
            let absent = same ∙ e in
            rw (absent, strip_to_allowed_keys, e)
              (lookup-insert_self (codes "type") (j.from_string (codes "string")) (allowed_in j m))
        | inr (v, e) ↦ let found = same ∙ e in rw (e, strip_to_allowed_keys, found) found
      ]

  lookup-other :
      (k : Text) (m : Assoc Text j.Value)
      → text_beq (codes "type") k ≡ false
      → lookup k (strip_to_allowed_keys j m) ≡ lookup k (allowed_in j m)
  unfolding strip_to_allowed_keys
  lookup-other k m other = elim (Bool-cases (is_some (lookup (codes "type") (allowed_in j m)))) [
    | inl found ↦ rw (found, strip_to_allowed_keys) refl
    | inr absent ↦
        rw (absent, strip_to_allowed_keys)
          (lookup-insert (codes "type") k (j.from_string (codes "string")) (allowed_in j m)
            ∙ rw other refl)
  ]

  or_string_other :
      (k : Text) (v : Option j.Value) → text_beq (codes "type") k ≡ false → or_string k v ≡ v
  or_string_other k (some v) other = refl
  or_string_other k none other = rw other refl

  -- What is left of a property's definition under any key: the value that it had, if the template
  -- handles the key, and nothing otherwise; a missing type has become "string".
  pub lookup-strip_to_allowed_keys :
      (k : Text) (m : Assoc Text j.Value)
      → lookup k (strip_to_allowed_keys j m)
        ≡ (if is_allowed k then or_string k (lookup k m) else none)
  unfolding is_allowed
  lookup-strip_to_allowed_keys k m = elim (Bool-cases (text_beq (codes "type") k)) [
    | inl same ↦
        subst
          (λ x.
            lookup x (strip_to_allowed_keys j m)
            ≡ (if is_allowed x then or_string x (lookup x m) else none))
          (text_beq-eq (codes "type") k same) (lookup-type m)
    | inr other ↦
        lookup-other k m other
        ∙ lookup-allowed_in k m
        ∙ sym (ap (λ v. if is_allowed k then v else none) (or_string_other k (lookup k m) other))
  ]
