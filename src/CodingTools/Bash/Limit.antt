-- ===== src/CodingTools/Bash/Limit.antt =====
-- pkg/codingtools/bash.go: the limit on the output, and the binary search.
use auxot.Common.{
  ℕ, zero, suc, ◌+◌, ◌-◌, ◌/◌, ◌≤◌, ◌<◌, ◌≡◌, refl, sym, ◌∙◌, ap, ◌⊎◌, inl, inr, Bool, true, false,
  [], ◌∷◌, ◌++◌, Text, length, length-append, length-take, take-of_length, ltb, leb, Bool-cases,
  arith,
}
use auxot.CodingTools.Bash.{
  BashResultJson, Limits, apply_max_bash_payload, trim_end, search, longest_prefix,
}

trim_end_lem :
    (over : ℕ) (s : Text)
    → (length (trim_end over s).1 + over ≡ length s + (trim_end over s).0)
      × ((trim_end over s).0 ≡ 0 ⊎ (trim_end over s).1 ≡ [])
unfolding trim_end
trim_end_lem over s = elim (Bool-cases (leb (length s) over)) [
  | inl all ↦ rw all (ground arith, inr refl)
  | inr part ↦ let n = length-take (length s - over) s in rw part (ground arith, inl refl)
]

nil_of_length : (s : Text) → length s ≡ 0 → s ≡ []
nil_of_length [] h = refl
nil_of_length (c ∷ s) h = ground arith

trim_end_none : (over : ℕ) (s : Text) → over ≡ 0 → (trim_end over s).1 ≡ s
unfolding trim_end
trim_end_none over s h = elim (Bool-cases (leb (length s) over)) [
  | inl all ↦ rw all (sym (nil_of_length s (ground arith)))
  | inr part ↦ rw part (take-of_length (length s - over) s (omega arith))
]

-- What is left after both cuts.
cut :
    (stderr stdout : Text) (budget : ℕ)
    → budget < length stdout + length stderr
    → let over = length stdout + length stderr - budget in
      let first = trim_end over stderr in
      let second = trim_end first.0 stdout in
      (length second.1 + length first.1 ≤ budget) × (second.1 ≡ stdout ⊎ first.1 ≡ [])
cut stderr stdout budget h =
    let over = length stdout + length stderr - budget in
    let first = trim_end over stderr in
    let (e1, end1) = trim_end_lem over stderr in
    let (e2, end2) = trim_end_lem first.0 stdout in
    elim end1 [
      | inl nothing_over ↦
          let same = trim_end_none first.0 stdout nothing_over in
          let n = ap length same in (omega arith, inl same)
      | inr empty ↦
          let n = ap length empty in
          elim end2 [
            | inl nothing_over ↦ (omega arith, inr empty)
            | inr empty2 ↦ let n2 = ap length empty2 in (omega arith, inr empty)
          ]
    ]

-- Where the note fits in the limit, standard output and standard error together do not exceed it
-- afterwards, the note included. Standard output is cut only if nothing is left of standard error
-- but the note.
pub apply_max_bash_payload_lem :
    (limits : Limits) (p : BashResultJson)
    → length limits.suffix ≤ limits.max_output_bytes
    → let p' = apply_max_bash_payload limits p in
      (length p'.stdout + length p'.stderr ≤ limits.max_output_bytes)
      × (p'.stdout ≡ p.stdout ⊎ p'.stderr ≡ limits.suffix)
unfolding apply_max_bash_payload
apply_max_bash_payload_lem limits p h =
    let budget = limits.max_output_bytes - length limits.suffix in
    elim (Bool-cases (leb (length p.stdout + length p.stderr) limits.max_output_bytes)) [
      | inl small ↦ rw small (ground arith, inl refl)
      | inr large ↦
          let (short, order) = cut p.stderr p.stdout budget (ground arith) in
          let over = length p.stdout + length p.stderr - budget in
          let stderr' = (trim_end over p.stderr).1 in
          let n = length-append stderr' limits.suffix in
          rw large (
            omega arith,
            elim order [
              | inl same ↦ inl same
              | inr empty ↦ inr (ap (λ s. s ++ limits.suffix) empty)
            ],
          )
    ]

below_misfit :
    (fits : ℕ → Bool) (mid k : ℕ)
    → ((j k : ℕ) → j ≤ k → fits k ≡ true → fits j ≡ true)
    → fits k ≡ true
    → fits mid ≡ false
    → k < mid
below_misfit fits mid k mono fit misfit = elim (Bool-cases (ltb k mid)) [
  | inl less ↦ ground arith
  | inr above ↦ let no : true ≡ false = sym (mono mid k (ground arith) fit) ∙ misfit in cc
]

-- The search does not miss a prefix that fits: `k` stays below `hi`, or has been passed.
search_misses_none :
    (fuel : ℕ) (fits : ℕ → Bool) (lo hi best k : ℕ)
    → ((j k : ℕ) → j ≤ k → fits k ≡ true → fits j ≡ true)
    → fits k ≡ true
    → hi < lo + fuel
    → k < hi
    → (k < lo → k ≤ best)
    → k ≤ search fuel fits lo hi best
unfolding search
search_misses_none zero fits lo hi best k mono fit enough below seen = seen (omega arith)
search_misses_none (suc fuel) fits lo hi best k mono fit enough below seen =
    let mid = (lo + hi) / 2 in
    elim (Bool-cases (ltb lo hi)) [
      | inr done ↦ rw (done) (seen (ground arith))
      | inl more ↦
          let before : lo < hi = ground arith in
          elim (Bool-cases (fits mid)) [
            | inl up ↦
                rw (more, up)
                  (search_misses_none fuel fits (mid + 1) hi mid k mono fit (omega arith) below
                    (λ passed. omega arith))
            | inr down ↦
                let short : k < mid = below_misfit fits mid k mono fit down in
                rw (more, down)
                  (search_misses_none fuel fits lo mid best k mono fit (omega arith) short seen)
          ]
    ]

-- What it finds fits, or is what it began with.
search-fits :
    (fuel : ℕ) (fits : ℕ → Bool) (lo hi best : ℕ)
    → (fits best ≡ true ⊎ best ≡ 0)
    → (fits (search fuel fits lo hi best) ≡ true) ⊎ (search fuel fits lo hi best ≡ 0)
unfolding search
search-fits zero fits lo hi best h = h
search-fits (suc fuel) fits lo hi best h =
    let mid = (lo + hi) / 2 in
    elim (Bool-cases (ltb lo hi)) [
      | inr done ↦ rw done h
      | inl more ↦ elim (Bool-cases (fits mid)) [
        | inl up ↦ rw (more, up) (search-fits fuel fits (mid + 1) hi mid (inl up))
        | inr down ↦ rw (more, down) (search-fits fuel fits lo mid best h)
      ]
    ]

-- If a shorter prefix fits whenever a longer one does, the search finds the longest prefix that
-- fits, and the empty prefix if none does.
pub longest_prefix_lem :
    (fits : ℕ → Bool) (n : ℕ)
    → ((j k : ℕ) → j ≤ k → fits k ≡ true → fits j ≡ true)
    → ((fits (longest_prefix fits n) ≡ true) ⊎ (longest_prefix fits n ≡ 0))
      × ((k : ℕ) → k ≤ n → fits k ≡ true → k ≤ longest_prefix fits n)
unfolding longest_prefix
longest_prefix_lem fits n mono = (
  search-fits (n + 2) fits 0 (n + 1) 0 (inr refl),
  λ k small fit.
      search_misses_none (n + 2) fits 0 (n + 1) 0 k mono fit (omega arith) (omega arith)
        (λ none_before. omega arith),
)
