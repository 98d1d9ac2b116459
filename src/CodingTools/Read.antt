-- ===== src/CodingTools/Read.antt =====
-- pkg/codingtools/read.go: which lines and bytes of a file are shown. A Go slice whose bounds are out
-- of order panics, which is an outcome here. The notes and the numbers in front of lines are left out,
-- but for the offset that a note gives.
pub mod Window
use auxot.Common.{
  ℕ, ◌+◌, ◌-◌, ◌≡◌, Bool, true, false, Option, none, some, List, [], ◌∷◌, ◌++◌, Text, length, take,
  drop, nat_beq, ltb, leb, ◌*◌, if◌then◌else◌,
}
use auxot.Common.Int.{ℤ, pos, pos_part, wrap_int, ◌+ℤ◌, ltb_ℤ, leb_ℤ, beq_ℤ}

pub record ReadArgs : Type 0 where
  pub offset : ℤ
  pub limit : ℤ
  pub offset_line : ℤ
  pub limit_lines : ℤ
  pub offset_byte : ℤ
  pub limit_bytes : ℤ

pub data Outcome {ℓ} (A : Type ℓ) : Type ℓ where
  shows : A → Outcome A
  fails : Outcome A
  panics : Outcome A

abbrev pub default_read_lines : ℤ
default_read_lines = pos 100

abbrev pub default_read_bytes : ℕ
default_read_bytes = 4096

abbrev pub max_read_bytes : ℕ
max_read_bytes = 100 * 1024

-- limitBytes after the default and the cap.
clamp_bytes : ℤ → ℕ
clamp_bytes limit_bytes =
    let wanted : ℕ =
      if leb_ℤ limit_bytes (pos 0) then default_read_bytes else pos_part limit_bytes in
    if ltb max_read_bytes wanted then max_read_bytes else wanted

-- The bytes shown, and the offset that the note gives to continue at, if there is more. A file that
-- is read does not change; a negative offset is refused by Seek.
unfoldable pub execute_read_bytes : Text → ReadArgs → Outcome (Text × Option ℕ)
unfolding clamp_bytes
execute_read_bytes file args =
    let total : ℕ = length file in
    let start : ℕ = pos_part args.offset_byte in
    let limit : ℕ = clamp_bytes args.limit_bytes in
    let to_read : ℕ = if ltb total (start + limit) then total - start else limit in
    let end' : ℕ = start + to_read in
    if ltb_ℤ args.offset_byte (pos 0)
    then fails
    else if leb total start
    then shows ([], none)
    else shows (take to_read (drop start file), (if ltb end' total then some end' else none))

-- The argument that takes precedence, unless it is 0.
first_set : ℤ → ℤ → ℤ
first_set a b = if beq_ℤ a (pos 0) then b else a

start_line : ReadArgs → ℕ
unfolding first_set
start_line args = pos_part (first_set args.offset_line args.offset) - 1

line_limit : ReadArgs → ℤ
unfolding first_set
line_limit args =
    let limit : ℤ = first_set args.limit_lines args.limit in
    if beq_ℤ limit (pos 0) then default_read_lines else limit

-- The end of the window, in machine integers.
end_line : ReadArgs → ℕ → ℤ
unfolding start_line line_limit
end_line args count =
    let end' : ℤ = wrap_int (pos (start_line args) +ℤ line_limit args) in
    if ltb_ℤ end' (pos count) then end' else pos count

-- The lines shown, from the file's lines.
unfoldable pub execute_read_lines : List Text → ReadArgs → Outcome (List Text)
unfolding start_line end_line
execute_read_lines lines args =
    let start : ℕ = start_line args in
    let end' : ℤ = end_line args (length lines) in
    if leb (length lines) start
    then fails
    else if leb_ℤ (pos start) end'
    then shows (take (pos_part end' - start) (drop start lines))
    else panics
