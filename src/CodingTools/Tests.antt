-- ===== src/CodingTools/Tests.antt =====
-- pkg/codingtools: runs, and the theorems at inputs that meet their hypotheses.
use auxot.Common.{
  ℕ, ◌≤◌, ◌≡◌, refl, Bool, true, Option, some, List, [], ◌∷◌, ◌++◌, Text, codes, text_comparable,
  length, leb, arith,
}
use auxot.Common.Int.{pos, negsuc, ◌+ℤ◌, wrap_int}
use auxot.CodingTools.Bash.{BashResultJson, Limits, fallback, marshal_bash_result_inline}
use auxot.CodingTools.Bash.Inline.{marshal_bash_result_inline_lem}
use auxot.CodingTools.Read.{ReadArgs, shows, panics, execute_read_lines}
use auxot.CodingTools.Read.Window.{read_on, read_on_all, execute_read_lines_negative}

abbrev small_limits : Limits
small_limits = record { max_output_bytes = 6; inline_bytes = 8; suffix = codes "!!" }

abbrev printed : BashResultJson
printed = record {
  stdout = codes "abcdef";
  stderr = codes "xyz";
  output = codes "abcdef";
  status = pos 0;
}

-- An encoding that puts the two texts one after the other.
abbrev joined : BashResultJson → Option Text
joined p = some (p.stdout ++ p.stderr)

abbrev lines_args : ReadArgs
lines_args = record {
  offset = pos 0;
  limit = pos 0;
  offset_line = pos 2;
  limit_lines = negsuc 0;
  offset_byte = pos 0;
  limit_bytes = pos 0;
}

abbrev file_lines : List Text
file_lines = codes "a" ∷ codes "b" ∷ codes "c" ∷ []

second_line :
    execute_read_lines file_lines (record lines_args { limit_lines = pos 1 })
    ≡ shows (codes "b" ∷ [])
unfolding execute_read_lines ◌+ℤ◌ wrap_int
second_line = refl

-- Up to three bytes fit.
abbrev up_to_three : ℕ → Bool
up_to_three k = leb k 3

up_to_three_mono : (j k : ℕ) → j ≤ k → up_to_three k ≡ true → up_to_three j ≡ true
up_to_three_mono j k h e = ground arith

empty_fits : length (fallback small_limits joined (pos 0)) ≤ 8
unfolding fallback
empty_fits = omega arith

marshal_bash_result_inline_lem_example :
    length (marshal_bash_result_inline small_limits joined (λ id. id) [] printed) ≤ 8
marshal_bash_result_inline_lem_example =
    marshal_bash_result_inline_lem small_limits joined (λ id. id) [] printed empty_fits

read_on_all_example : read_on 5 (codes "abcd") (pos 3) 0 ≡ codes "abcd"
read_on_all_example = read_on_all (codes "abcd") (pos 3)

execute_read_lines_negative_example : execute_read_lines file_lines lines_args ≡ panics
execute_read_lines_negative_example =
    execute_read_lines_negative file_lines lines_args 0 1 refl refl (omega arith) (omega arith)
      (omega arith)
