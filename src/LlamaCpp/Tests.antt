-- ===== src/LlamaCpp/Tests.antt =====
-- pkg/llamacpp/sanitize.go: the definition of a property with a default and no type.
use auxot.Common.{◌≡◌, refl, none, [], ◌∷◌, Text, codes, text_comparable, if◌then◌else◌}
use auxot.Common.Assoc.{Assoc, insert, lookup}
use auxot.LlamaCpp.{Schemas, is_allowed, strip_to_allowed_keys}
use auxot.LlamaCpp.Keys.{or_string, lookup-strip_to_allowed_keys}

-- Values that are texts, none of which is an object.
abbrev texts : Schemas
texts = record {
  Value = Text;
  object_of = λ v. none;
  from_object = λ m. [];
  from_string = λ s. s;
  unmarshal = λ s. none;
  marshal = λ m. none;
}

abbrev prop_def : Assoc Text Text
prop_def = (codes "default", codes "3") ∷ (codes "description", codes "how many") ∷ []

lookup-strip_to_allowed_keys_example :
    lookup (codes "default") (strip_to_allowed_keys texts prop_def) ≡ (
      if is_allowed (codes "default")
      then or_string texts (codes "default") (lookup (codes "default") prop_def)
      else none)
lookup-strip_to_allowed_keys_example = lookup-strip_to_allowed_keys texts (codes "default") prop_def

stripped :
    strip_to_allowed_keys texts prop_def
    ≡ (codes "description", codes "how many") ∷ (codes "type", codes "string") ∷ []
unfolding strip_to_allowed_keys is_allowed lookup insert
stripped = refl
