-- ===== src/CodingTools/Bash/Inline.antt =====
-- pkg/codingtools/bash.go: what is returned inline keeps within its limit.
use auxot.Common.{
  ℕ, zero, suc, ◌≤◌, inl, inr, Option, none, some, Text, length, take, leb, text_comparable,
  if◌then◌else◌, Bool-cases, Option-cases, arith,
}
use auxot.Common.Assoc.{Assoc}
use auxot.Common.Int.{ℤ}
use auxot.CodingTools.Bash.{
  BashResultJson, Limits, fallback, minimal, shorten, minimal_bash_inline_json,
  marshal_bash_result_inline,
}

module _ (limits : Limits) (marshal : BashResultJson → Option Text) where
  shorten-within :
      (status : ℤ) (msg : Text) (n : ℕ)
      → length (fallback limits marshal status) ≤ limits.inline_bytes
      → length (shorten limits marshal status msg n) ≤ limits.inline_bytes
  unfolding shorten
  shorten-within status msg zero h = h
  shorten-within status msg (suc n) h =
      elim (Option-cases (marshal (minimal limits marshal status (take n msg)))) [
        | inl e ↦ rw (shorten, e) h
        | inr (b, e) ↦ elim (Bool-cases (leb (length b) limits.inline_bytes)) [
          | inl fits ↦ rw (shorten, e, fits) (ground arith)
          | inr large ↦ rw (shorten, e, large) (shorten-within status msg n h)
        ]
      ]

  -- An encoding is taken only if it keeps within the limit.
  first_within :
      (o : Option Text) (on_error otherwise : Text)
      → length on_error ≤ limits.inline_bytes
      → length otherwise ≤ limits.inline_bytes
      → length (elim o [
        | none ↦ on_error
        | some b ↦ if leb (length b) limits.inline_bytes then b else otherwise
      ])
        ≤ limits.inline_bytes
  first_within none on_error otherwise he ho = he
  first_within (some b) on_error otherwise he ho =
      elim (Bool-cases (leb (length b) limits.inline_bytes)) [
        | inl fits ↦ rw fits (ground arith)
        | inr large ↦ rw large ho
      ]

  minimal-within :
      (hint : Text → Text) (tool_env : Assoc Text Text) (status : ℤ)
      → length (fallback limits marshal status) ≤ limits.inline_bytes
      → length (minimal_bash_inline_json limits marshal hint tool_env status) ≤ limits.inline_bytes
  unfolding minimal_bash_inline_json
  minimal-within hint tool_env status h = first_within _ _ _ h (shorten-within status _ _ h)

  -- Whatever a command prints, what is returned inline keeps within its limit, if the encoding of a
  -- result without output does.
  pub marshal_bash_result_inline_lem :
      (hint : Text → Text) (tool_env : Assoc Text Text) (p : BashResultJson)
      → length (fallback limits marshal p.status) ≤ limits.inline_bytes
      → length (marshal_bash_result_inline limits marshal hint tool_env p) ≤ limits.inline_bytes
  unfolding marshal_bash_result_inline
  marshal_bash_result_inline_lem hint tool_env p h =
      let small = minimal-within hint tool_env p.status h in
      first_within _ _ _ small (first_within _ _ _ small small)
