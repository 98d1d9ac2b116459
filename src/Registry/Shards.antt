-- ===== src/Registry/Shards.antt =====
-- pkg/registry/registry.go: the names of the files of a sharded model.
use auxot.Common.{
  zero, ◌+◌, is_empty, map, List, suc, Bool-cases, append_assoc, if◌then◌else◌, ℕ, ◌-◌, ◌/◌, ◌<◌,
  ◌≡◌, refl, sym, ap, ◌∙◌, true, false, ◌&&◌, some, [], ◌∷◌, ◌++◌, Text, codes, nat_beq, leb,
  length, take, drop, arith, inl, inr, length-append, text_comparable, List-cases,
}
use auxot.Auth.{elem}
use auxot.Registry.{
  Model, after_last, before_last, bare_file_name, sub_dir, all_digits, is_shard_tail, split_match,
  atoi, shard_count, digit, pad5, shard_name, in_dir, shards_from, shard_file_names,
}

elem-append : (c : ℕ) (s t : Text) → elem c s ≡ false → elem c t ≡ false → elem c (s ++ t) ≡ false
elem-append c [] t hs ht = ht
elem-append c (b ∷ s) t hs ht = ground (arith, elem-append c s t)

elem-slash : (dir s : Text) → elem 47 (dir ++ 47 ∷ s) ≡ true
elem-slash [] s = refl
elem-slash (c ∷ dir) s = ground (arith, elem-slash dir s)

take-append_self : (s t : Text) → take (length s) (s ++ t) ≡ s
take-append_self [] t = refl
take-append_self (c ∷ s) t = ap (λ u. c ∷ u) (take-append_self s t)

drop-append_self : (s t : Text) → drop (length s) (s ++ t) ≡ t
drop-append_self [] t = refl
drop-append_self (c ∷ s) t = drop-append_self s t

after_last_bare : (s : Text) → elem 47 s ≡ false → after_last s ≡ s
unfolding after_last
after_last_bare [] h = refl
after_last_bare (c ∷ s) h = ground (arith, after_last_bare s)

after_last_dir : (dir s : Text) → elem 47 s ≡ false → after_last (dir ++ 47 ∷ s) ≡ s
unfolding after_last
after_last_dir [] s h = rw (h, after_last) refl
after_last_dir (c ∷ dir) s h = rw (elem-slash dir s, after_last) (after_last_dir dir s h)

before_last_bare : (s : Text) → elem 47 s ≡ false → before_last s ≡ []
unfolding before_last
before_last_bare [] h = refl
before_last_bare (c ∷ s) h = ground (arith, before_last_bare s)

before_last_dir : (dir s : Text) → elem 47 s ≡ false → before_last (dir ++ 47 ∷ s) ≡ dir
unfolding before_last
before_last_dir [] s h = rw (h, before_last) refl
before_last_dir (c ∷ dir) s h =
    rw (elem-slash dir s, before_last) (ap (λ t. c ∷ t) (before_last_dir dir s h))

-- What follows the prefix.
abbrev tail : ℕ → ℕ → Text
tail i total = codes "-" ++ (pad5 i ++ (codes "-of-" ++ (pad5 total ++ codes ".gguf")))

is_digit : (n : ℕ) → (leb 48 (digit n) && leb (digit n) 57) ≡ true
is_digit n = ground arith

not_slash : (n : ℕ) → nat_beq (digit n) 47 ≡ false
not_slash n = ground arith

all_digits-pad5 : (n : ℕ) → all_digits (pad5 n) ≡ true
unfolding pad5
all_digits-pad5 n =
    rw
      (is_digit (n / 10000), is_digit (n / 1000), is_digit (n / 100), is_digit (n / 10), is_digit n)
      refl

elem-pad5 : (n : ℕ) → elem 47 (pad5 n) ≡ false
unfolding pad5
elem-pad5 n =
    rw
      (
        not_slash (n / 10000),
        not_slash (n / 1000),
        not_slash (n / 100),
        not_slash (n / 10),
        not_slash n,
      )
      refl

atoi-pad5 : (n : ℕ) → n < 100000 → atoi 0 (pad5 n) ≡ n
unfolding pad5
atoi-pad5 n h = ground arith

length-tail : (i total : ℕ) → length (tail i total) ≡ 20
unfolding pad5
length-tail i total = refl

total_of : (i total : ℕ) → take 5 (drop 10 (tail i total)) ≡ pad5 total
unfolding pad5
total_of i total = refl

tail_is_tail : (i total : ℕ) → is_shard_tail (tail i total) ≡ true
unfolding is_shard_tail pad5
tail_is_tail i total = rw (all_digits-pad5 i, all_digits-pad5 total) refl

tail_has_no_slash : (i total : ℕ) → elem 47 (tail i total) ≡ false
tail_has_no_slash i total =
    let last : Text = pad5 total ++ codes ".gguf" in
    let middle : Text = codes "-of-" ++ last in
    elem-append 47 (codes "-") (pad5 i ++ middle) refl (
      elem-append 47 (pad5 i) middle (elem-pad5 i) (
        elem-append 47 (codes "-of-") last refl
          (elem-append 47 (pad5 total) (codes ".gguf") (elem-pad5 total) refl)))

length_before : (p t : Text) → length t ≡ 20 → length (p ++ t) - 20 ≡ length p
length_before p t h = ground (arith, length-append p t)

long_enough : (p t : Text) → length t ≡ 20 → leb 20 (length (p ++ t)) ≡ true
long_enough p t h = ground (arith, length-append p t)

split_match-shard_name :
    (p : Text) (i total : ℕ)
    → elem 10 p ≡ false
    → split_match (shard_name p i total) ≡ some (p, pad5 total)
unfolding split_match shard_name
split_match-shard_name p i total no_feed =
    rw
      (
        long_enough p (tail i total) (length-tail i total),
        length_before p (tail i total) (length-tail i total),
        take-append_self p (tail i total),
        drop-append_self p (tail i total),
        no_feed,
        tail_is_tail i total,
        total_of i total,
        split_match,
      )
      refl

-- The file of a shard, in a directory or in none.
parts_of :
    (m : Model) (dir shard : Text)
    → elem 47 shard ≡ false
    → m.file_name ≡ in_dir dir shard
    → (bare_file_name m ≡ shard) × (sub_dir m ≡ dir)
unfolding bare_file_name sub_dir in_dir
parts_of m dir shard no_slash e = elim (List-cases dir) [
  | inl none_given ↦
      let named : m.file_name ≡ shard = e ∙ rw (none_given, in_dir) refl in
      rw (named, bare_file_name, sub_dir)
        (after_last_bare shard no_slash, before_last_bare shard no_slash ∙ sym none_given)
  | inr (c, rest, given) ↦
      let named : m.file_name ≡ dir ++ 47 ∷ shard = e ∙ rw (given, in_dir) refl in
      rw (named, bare_file_name, sub_dir)
        (after_last_dir dir shard no_slash, before_last_dir dir shard no_slash)
]

-- The name of a shard as it is documented, "Q4_K_S/Model-00001-of-00006.gguf".
abbrev pub file_of : Text → Text → ℕ → ℕ → Text
file_of dir prefix total i =
    (if is_empty dir then [] else dir ++ codes "/")
    ++ (prefix ++ (codes "-" ++ (pad5 i ++ (codes "-of-" ++ (pad5 total ++ codes ".gguf")))))

-- The numbers from 1 to n.
abbrev pub one_to : ℕ → List ℕ
one_to zero = []
one_to (suc n) = one_to n ++ suc n ∷ []

-- The numbers from i on, of which there are n.
abbrev numbers : ℕ → ℕ → List ℕ
numbers i zero = []
numbers i (suc n) = i ∷ numbers (suc i) n

numbers_snoc : (i n : ℕ) → numbers i (suc n) ≡ numbers i n ++ (i + n) ∷ []
numbers_snoc i zero = ap (λ k. k ∷ []) (omega arith)
numbers_snoc i (suc n) =
    let same : suc i + n ≡ i + suc n = omega arith in
    ap (λ ks. i ∷ ks) (numbers_snoc (suc i) n ∙ ap (λ k. numbers (suc i) n ++ k ∷ []) same)

numbers-one_to : (n : ℕ) → numbers 1 n ≡ one_to n
numbers-one_to zero = refl
numbers-one_to (suc n) =
    let same : 1 + n ≡ suc n = omega arith in
    numbers_snoc 1 n
    ∙ ap (λ k. numbers 1 n ++ k ∷ []) same
    ∙ ap (λ ks. ks ++ suc n ∷ []) (numbers-one_to n)

in_dir-file_of :
    (dir prefix : Text) (i total : ℕ)
    → in_dir dir (shard_name prefix i total) ≡ file_of dir prefix total i
unfolding in_dir shard_name
in_dir-file_of dir prefix i total = elim (Bool-cases (is_empty dir)) [
  | inl e ↦ rw (e, in_dir) refl
  | inr e ↦ rw (e, in_dir) (sym (append_assoc dir (codes "/") _))
]

shards_from-numbers :
    (dir prefix : Text) (total i n : ℕ)
    → shards_from dir prefix total i n ≡ map (file_of dir prefix total) (numbers i n)
unfolding shards_from
shards_from-numbers dir prefix total i zero = refl
shards_from-numbers dir prefix total i (suc n) =
    ap (λ name. name ∷ shards_from dir prefix total (suc i) n) (in_dir-file_of dir prefix i total)
    ∙ ap (λ names. file_of dir prefix total i ∷ names)
        (shards_from-numbers dir prefix total (suc i) n)

-- A model whose file is the i-th of a number of shards below 100,000, in a directory or in none, has
-- that number of shards, and its file names are the names of the shards 1, 2 and so on up to that
-- number in the same directory, whichever shard it is, if the prefix has no slash and no line
-- feed.
pub shard_file_names-file_of :
    (m : Model) (dir prefix : Text) (i total : ℕ)
    → elem 47 prefix ≡ false
    → elem 10 prefix ≡ false
    → total < 100000
    → m.file_name ≡ file_of dir prefix total i
    → (shard_count m ≡ total) × (shard_file_names m ≡ map (file_of dir prefix total) (one_to total))
unfolding shard_count shard_file_names shard_name
shard_file_names-file_of m dir prefix i total no_slash no_feed small named =
    let e = named ∙ sym (in_dir-file_of dir prefix i total) in
    let parts =
      parts_of m dir (shard_name prefix i total)
        (elem-append 47 prefix (tail i total) no_slash (tail_has_no_slash i total)) e in
    let matched : split_match (bare_file_name m) ≡ some (prefix, pad5 total) =
      ap split_match parts.0 ∙ split_match-shard_name prefix i total no_feed in
    rw (matched, shard_count, shard_file_names, atoi-pad5 total small, parts.1)
      (
        refl,
        shards_from-numbers dir prefix total 1 total
            ∙ ap (map (file_of dir prefix total)) (numbers-one_to total),
      )
