-- ===== src/LlamaCpp.antt =====
-- pkg/llamacpp/sanitize.go: a tool's schema is reduced to the keys that llama.cpp's template handles.
-- encoding/json is a parameter.
pub mod Keys
pub mod Tests
use auxot.Common.{
  ℕ, ◌≡◌, Bool, true, false, ◌||◌, Option, none, some, List, [], ◌∷◌, ◌++◌, Text, codes, text_beq,
  text_comparable, is_nil, is_some, is_empty, if◌then◌else◌,
}
use auxot.Common.Assoc.{Assoc, lookup, insert}
use auxot.Protocol.{Tool}

-- encoding/json at maps from keys to values: a value may be an object, and an object is a value.
pub record Schemas : Type 1 where
  pub Value : Type 0
  pub object_of : Value → Option (Assoc Text Value)
  pub from_object : Assoc Text Value → Value
  pub from_string : Text → Value
  pub unmarshal : Text → Option (Assoc Text Value)
  pub marshal : Assoc Text Value → Option Text

unfoldable pub is_allowed : Text → Bool
is_allowed key =
    text_beq key (codes "type")
    || (text_beq key (codes "description")
        || (text_beq key (codes "enum") || text_beq key (codes "required")))

module _ (j : Schemas) where
  unfoldable pub allowed_in : Assoc Text j.Value → Assoc Text j.Value
  unfolding is_allowed
  allowed_in [] = []
  allowed_in ((key, value) ∷ rest) =
      let kept : Assoc Text j.Value = allowed_in rest in
      if is_allowed key then (key, value) ∷ kept else kept

  unfoldable pub strip_to_allowed_keys : Assoc Text j.Value → Assoc Text j.Value
  unfolding allowed_in
  strip_to_allowed_keys prop_def =
      let stripped : Assoc Text j.Value = allowed_in prop_def in
      if is_some (lookup (codes "type") stripped)
      then stripped
      else insert (codes "type") (j.from_string (codes "string")) stripped

  -- The definition of a property that is no object is left out.
  clean_props : Assoc Text j.Value → Assoc Text j.Value
  unfolding strip_to_allowed_keys
  clean_props [] = []
  clean_props ((name, prop_def) ∷ props) =
      let rest : Assoc Text j.Value = clean_props props in
      elim (j.object_of prop_def) [
        | none ↦ rest
        | some prop_map ↦ (name, j.from_object (strip_to_allowed_keys prop_map)) ∷ rest
      ]

  entry : Text → Option j.Value → Assoc Text j.Value
  entry key none = []
  entry key (some value) = (key, value) ∷ []

  cleaned_props_of : Option j.Value → Option j.Value
  unfolding clean_props
  cleaned_props_of none = none
  cleaned_props_of (some value) = elim (j.object_of value) [
    | none ↦ none
    | some props ↦ some (j.from_object (clean_props props))
  ]

  clean : Assoc Text j.Value → Assoc Text j.Value
  unfolding entry cleaned_props_of
  clean params =
      entry (codes "type") (lookup (codes "type") params)
      ++ (entry (codes "properties") (cleaned_props_of (lookup (codes "properties") params))
          ++ entry (codes "required") (lookup (codes "required") params))

  -- `none` is an error.
  sanitize_tool : Tool → Option Tool
  unfolding clean
  sanitize_tool tool =
      if is_nil tool.function.parameters
      then some tool
      else elim (j.unmarshal tool.function.parameters) [
        | none ↦ none
        | some params ↦ elim (j.marshal (clean params)) [
          | none ↦ none
          | some text ↦ some (record tool { function = record tool.function { parameters = text } })
        ]
      ]

  pub sanitize_tools : List Tool → Option (List Tool)
  unfolding sanitize_tool
  sanitize_tools [] = some []
  sanitize_tools (tool ∷ tools) =
      let rest : Option (List Tool) = sanitize_tools tools in
      elim (sanitize_tool tool) [
        | none ↦ none
        | some cleaned ↦ elim rest [ none ↦ none | some later ↦ some (cleaned ∷ later) ]
      ]
