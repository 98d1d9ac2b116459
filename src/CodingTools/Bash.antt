-- ===== src/CodingTools/Bash.antt =====
-- pkg/codingtools/bash.go: what becomes of the output of a command. encoding/json at the result type
-- is an argument: `marshal` gives the JSON text, or none for an error.
pub mod Limit
pub mod Inline
use auxot.Common.{
  ℕ, zero, suc, ◌+◌, ◌-◌, ◌*◌, ◌/◌, ◌≡◌, Bool, true, false, Option, none, some, List, [], ◌∷◌, ◌++◌,
  Text, codes, text_comparable, length, take, ltb, leb, is_empty, if◌then◌else◌,
}
use auxot.Common.Assoc.{Assoc, lookup}
use auxot.Common.Int.{ℤ, pos}

pub record BashResultJson : Type 0 where
  pub stdout : Text
  pub stderr : Text
  pub output : Text
  pub status : ℤ

-- Budgets and texts that the code has as constants.
pub record Limits : Type 0 where
  pub max_output_bytes : ℕ
  pub inline_bytes : ℕ
  pub suffix : Text

-- Cuts `over` bytes from the end of a text; what is still over, and the text.
trim_end : ℕ → Text → ℕ × Text
trim_end over s =
    if leb (length s) over then (over - length s, []) else (0, take (length s - over) s)

unfoldable pub apply_max_bash_payload : Limits → BashResultJson → BashResultJson
unfolding trim_end
apply_max_bash_payload limits p =
    let total : ℕ = length p.stdout + length p.stderr in
    let over : ℕ = total - (limits.max_output_bytes - length limits.suffix) in
    let (still_over, stderr) = trim_end over p.stderr in
    let (_, stdout) = trim_end still_over p.stdout in
    if leb total limits.max_output_bytes
    then record p { output = p.stdout }
    else record p { stdout = stdout; stderr = stderr ++ limits.suffix; output = stdout }

-- The binary search for the longest prefix that fits: `best` is the last one that did. The loop runs
-- for at most `fuel` rounds; `hi` is one more than in the code, where it may be -1.
search : ℕ → (ℕ → Bool) → ℕ → ℕ → ℕ → ℕ
search zero fits lo hi best = best
search (suc fuel) fits lo hi best =
    let mid : ℕ = (lo + hi) / 2 in
    let up = search fuel fits (mid + 1) hi mid in
    let down = search fuel fits lo mid best in
    if ltb lo hi then (if fits mid then up else down) else best

unfoldable pub longest_prefix : (ℕ → Bool) → ℕ → ℕ
unfolding search
longest_prefix fits n = search (n + 2) fits 0 (n + 1) 0

-- Whether a result is encoded in `n` bytes at most.
fits_in : ℕ → (BashResultJson → Option Text) → BashResultJson → Bool
fits_in n marshal p = elim (marshal p) [ none ↦ false | some b ↦ leb (length b) n ]

with_parts : BashResultJson → Text → Text → BashResultJson
with_parts p stdout stderr = record {
  stdout = stdout;
  stderr = stderr;
  output = stdout;
  status = p.status;
}

module _ (limits : Limits) (marshal : BashResultJson → Option Text) where
  -- `string(b)` of an encoding whose error is ignored.
  text_or_empty : Option Text → Text
  text_or_empty none = []
  text_or_empty (some b) = b

  unfoldable pub fallback : ℤ → Text
  unfolding text_or_empty
  fallback status =
      text_or_empty (marshal (record { stdout = []; stderr = []; output = []; status = status }))

  minimal : ℤ → Text → BashResultJson
  minimal status msg = record { stdout = []; stderr = msg; output = []; status = status }

  -- The last resort: the hint is shortened byte by byte, to `n` bytes and less.
  shorten : ℤ → Text → ℕ → Text
  unfolding minimal fallback
  shorten status msg zero = fallback status
  shorten status msg (suc n) =
      let shorter = shorten status msg n in
      elim (marshal (minimal status (take n msg))) [
        | none ↦ fallback status
        | some b ↦ if leb (length b) limits.inline_bytes then b else shorter
      ]

  -- `hint` is the text for a call ID.
  unfoldable pub minimal_bash_inline_json : (Text → Text) → Assoc Text Text → ℤ → Text
  unfolding shorten minimal fallback
  minimal_bash_inline_json hint tool_env status =
      let id : Text = text_or_empty (lookup (codes "_call_id") tool_env) in
      let msg : Text = hint (if is_empty id then codes "<call_id>" else id) in
      elim (marshal (minimal status msg)) [
        | none ↦ fallback status
        | some b ↦ if leb (length b) limits.inline_bytes then b else shorten status msg (length msg)
      ]

  unfoldable pub marshal_bash_result_inline :
      (Text → Text) → Assoc Text Text → BashResultJson → Text
  unfolding fits_in with_parts
  marshal_bash_result_inline hint tool_env p0 =
      let p : BashResultJson = record p0 { output = p0.stdout } in
      let small : Text = minimal_bash_inline_json hint tool_env p.status in
      let fits : BashResultJson → Bool = fits_in limits.inline_bytes marshal in
      let best_ke : ℕ =
        longest_prefix (λ k. fits (with_parts p p.stdout (take k p.stderr))) (length p.stderr) in
      let se_use : Text = take best_ke p.stderr in
      let best_ko : ℕ =
        longest_prefix (λ k. fits (with_parts p (take k p.stdout) se_use)) (length p.stdout) in
      let out : BashResultJson = with_parts p (take best_ko p.stdout) se_use in
      elim (marshal p) [
        | none ↦ small
        | some b ↦ if leb (length b) limits.inline_bytes then b else elim (marshal out) [
          | none ↦ small
          | some b' ↦ if leb (length b') limits.inline_bytes then b' else small
        ]
      ]

-- The constants.
abbrev pub bash_limits : Limits
bash_limits = record {
  max_output_bytes = 100 * 1024;
  inline_bytes = 1024;
  suffix = codes "\n[output truncated at 100KB]";
}
