-- ===== src/CodingTools/Read/Window.antt =====
-- pkg/codingtools/read.go: a file read in chunks, and the lines that no window shows.
use auxot.Common.{
  ℕ, zero, suc, ◌+◌, ◌-◌, ◌≤◌, ◌<◌, ◌≡◌, refl, sym, ◌∙◌, ap, inl, inr, true, false, none, some,
  List, [], ◌∷◌, ◌++◌, Text, length, take, drop, take-append-drop, take-of_length, length-drop, ltb,
  leb, if◌then◌else◌, Bool-cases, arith, ◌^◌,
}
use auxot.Common.Int.{ℤ, pos, negsuc, wrap_int, wrap_int-of_IsInt, +ℤ_parts, ◌+ℤ◌, ltb_ℤ, leb_ℤ}
use auxot.CodingTools.Read.{
  ReadArgs, shows, fails, panics, clamp_bytes, start_line, end_line, line_limit, first_set,
  execute_read_bytes, execute_read_lines,
}

abbrev bytes_at : ℕ → ℤ → ReadArgs
bytes_at start limit_bytes = record {
  offset = pos 0;
  limit = pos 0;
  offset_line = pos 0;
  limit_lines = pos 0;
  offset_byte = pos start;
  limit_bytes = limit_bytes;
}

-- Reads a file in chunks, each where the note of the one before says, `fuel` times at most.
pub read_on : ℕ → Text → ℤ → ℕ → Text
read_on zero file limit_bytes start = []
read_on (suc fuel) file limit_bytes start =
    elim (execute_read_bytes file (bytes_at start limit_bytes)) [
      | shows (content, next) ↦ elim next [
        | none ↦ content
        | some start' ↦ content ++ read_on fuel file limit_bytes start'
      ]
      | fails ↦ []
      | panics ↦ []
    ]

some_bytes : (limit_bytes : ℤ) → 0 < clamp_bytes limit_bytes
unfolding clamp_bytes
some_bytes limit_bytes = ground arith

drop-nil : (n : ℕ) → drop {A = ℕ} n [] ≡ []
drop-nil zero = refl
drop-nil (suc n) = refl

drop-drop : (m n : ℕ) (s : Text) → drop m (drop n s) ≡ drop (n + m) s
drop-drop m zero s = let same : m ≡ 0 + m = omega arith in ap (λ i. drop i s) same
drop-drop m (suc n) [] = drop-nil m ∙ sym (drop-nil (suc n + m))
drop-drop m (suc n) (c ∷ s) =
    let same : suc (n + m) ≡ suc n + m = omega arith in
    drop-drop m n s ∙ ap (λ i. drop i (c ∷ s)) same

nil_of_length : (s : Text) → length s ≡ 0 → s ≡ []
nil_of_length [] h = refl
nil_of_length (c ∷ s) h = ground arith

drop_all : (n : ℕ) (s : Text) → length s ≤ n → drop n s ≡ []
drop_all n s h = let left = length-drop n s in nil_of_length (drop n s) (omega arith)

take_all : (n start : ℕ) (s : Text) → length s ≤ start + n → take n (drop start s) ≡ drop start s
take_all n start s h =
    let left = length-drop start s in take-of_length n (drop start s) (omega arith)

-- The first chunk and the rest of the file.
take-drop : (n start : ℕ) (s : Text) → take n (drop start s) ++ drop (start + n) s ≡ drop start s
take-drop n start s =
    ap (λ t. take n (drop start s) ++ t) (sym (drop-drop n start s))
    ∙ take-append-drop n (drop start s)

read_on-drop :
    (fuel : ℕ) (file : Text) (limit_bytes : ℤ) (start : ℕ)
    → length file < start + fuel
    → read_on fuel file limit_bytes start ≡ drop start file
unfolding read_on execute_read_bytes
read_on-drop zero file limit_bytes start h = sym (drop_all start file (omega arith))
read_on-drop (suc fuel) file limit_bytes start h =
    let limit = clamp_bytes limit_bytes in
    let positive = some_bytes limit_bytes in
    let total = length file in
    let from_start : ltb_ℤ (pos start) (pos 0) ≡ false = ground arith in
    elim (Bool-cases (leb total start)) [
      | inl behind ↦
          rw (read_on, execute_read_bytes, from_start, behind)
            (sym (drop_all start file (ground arith)))
      | inr inside ↦ elim (Bool-cases (ltb total (start + limit))) [
        | inl last ↦
            let at_end : ltb (start + (total - start)) total ≡ false = ground arith in
            rw (read_on, execute_read_bytes, from_start, inside, last, at_end, last)
              (take_all (total - start) start file (omega arith))
        | inr within ↦ elim (Bool-cases (ltb (start + limit) total)) [
          | inl more ↦
              let rest = read_on-drop fuel file limit_bytes (start + limit) (omega arith) in
              rw (read_on, execute_read_bytes, from_start, inside, within, more, within, rest)
                (take-drop limit start file)
          | inr exact ↦
              rw (read_on, execute_read_bytes, from_start, inside, within, exact, within)
                (take_all limit start file (ground arith))
        ]
      ]
    ]

-- Read in chunks of any requested size, each from the offset that the note of the one before gives, a
-- file is shown whole and in order. One chunk more than the file has bytes is enough.
pub read_on_all :
    (file : Text) (limit_bytes : ℤ) → read_on (length file + 1) file limit_bytes 0 ≡ file
read_on_all file limit_bytes = read_on-drop (length file + 1) file limit_bytes 0 (omega arith)

-- Where the slice's bounds are out of order.
out_of_order :
    (lines : List Text) (args : ReadArgs)
    → leb (length lines) (start_line args) ≡ false
    → leb_ℤ (pos (start_line args)) (end_line args (length lines)) ≡ false
    → execute_read_lines lines args ≡ panics
unfolding execute_read_lines
out_of_order lines args inside order = rw (execute_read_lines, inside, order)

starts_at :
    (args : ReadArgs) (start : ℕ) → args.offset_line ≡ pos (suc start) → start_line args ≡ start
unfolding start_line first_set
starts_at args start e = rw (start_line, first_set, e) (ground arith)

limited_by : (args : ReadArgs) (n : ℕ) → args.limit_lines ≡ negsuc n → line_limit args ≡ negsuc n
unfolding line_limit first_set
limited_by args n e = rw (line_limit, first_set, e) (ground arith)

ends_before :
    (start n count : ℕ)
    → start < 2 ^ 63
    → n < 2 ^ 63
    → start < count
    → let end' = wrap_int (pos start +ℤ negsuc n) in
      leb_ℤ (pos start) (if ltb_ℤ end' (pos count) then end' else pos count) ≡ false
ends_before start n count hs hn inside =
    let e = pos start +ℤ negsuc n in
    let parts = +ℤ_parts (pos start) (negsuc n) in
    let same : wrap_int e ≡ e = wrap_int-of_IsInt e (ground arith) in
    let less : ltb_ℤ e (pos count) ≡ true = ground arith in rw (same, less) (ground arith)

end_line-of :
    (args : ReadArgs) (start n count : ℕ)
    → start_line args ≡ start
    → line_limit args ≡ negsuc n
    → end_line args count ≡ (
        let end' = wrap_int (pos start +ℤ negsuc n) in
        if ltb_ℤ end' (pos count) then end' else pos count)
unfolding end_line
end_line-of args start n count s l = rw (end_line, s, l)

-- A negative number of lines makes the window's end come before its start, and the slice panics,
-- wherever the first line to show is in the file.
pub execute_read_lines_negative :
    (lines : List Text) (args : ReadArgs) (n start : ℕ)
    → args.limit_lines ≡ negsuc n
    → args.offset_line ≡ pos (suc start)
    → start < length lines
    → n < 2 ^ 63
    → start < 2 ^ 63
    → execute_read_lines lines args ≡ panics
execute_read_lines_negative lines args n start limit offset inside small short =
    let first = starts_at args start offset in
    let ends = end_line-of args start n (length lines) first (limited_by args n limit) in
    out_of_order lines args (rw first (ground arith))
      (rw (first, ends) (ends_before start n (length lines) short small inside))
