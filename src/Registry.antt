-- ===== src/Registry.antt =====
-- pkg/registry/registry.go: the catalogue of models, and the names of a sharded model's files.
-- encoding/json and the embedded file are left out; a float64 is kept by its 64 bits.
pub mod Shards
pub mod Tests
use auxot.Common.{
  ℕ, zero, suc, ◌+◌, ◌-◌, ◌*◌, ◌/◌, ◌%◌, Bool, true, false, not, ◌&&◌, Option, none, some, List, [],
  ◌∷◌, ◌++◌, Text, codes, text_beq, text_comparable, nat_beq, leb, length, take, drop, is_some,
  is_empty, keep, if◌then◌else◌,
}
use auxot.Common.Int.{ℤ}
use auxot.Auth.{elem}
use auxot.Queue.Redis.{contains}
use auxot.Router.Policy.{to_lower}

pub record ModelFormat : Type 0 where
  pub type : Text
  pub hugging_face_id : Text
  pub file_name : Text

pub record Model : Type 0 where
  pub id : Text
  pub model_name : Text
  pub hugging_face_id : Text
  pub quantization : Text
  pub family : Text
  pub parameters : Text
  pub default_context_size : ℤ
  pub max_context_size : ℤ
  pub vram_requirements_gb : ℕ
  pub capabilities : List Text
  pub file_name : Text
  pub file_size_bytes : Option ℤ
  pub mmproj_file_name : Text
  pub formats : List ModelFormat

pub record Registry : Type 0 where
  pub version : Text
  pub generated_at : Text
  pub models : List Model

abbrev first_with : (Model → Bool) → List Model → Option Model
first_with test [] = none
first_with test (m ∷ ms) =
    let rest : Option Model = first_with test ms in if test m then some m else rest

pub find_by_id : Text → Registry → Option Model
find_by_id id reg = first_with (λ m. text_beq m.id id) reg.models

pub find_by_name_and_quant : Text → Text → Registry → Option Model
find_by_name_and_quant name quantization reg =
    first_with
      (λ m.
        text_beq (to_lower m.model_name) (to_lower name)
        && text_beq (to_lower m.quantization) (to_lower quantization))
      reg.models

pub find_by_name : Text → Registry → List Model
find_by_name name reg = keep (λ m. text_beq (to_lower m.model_name) (to_lower name)) reg.models

has_capability : Text → List Text → Bool
has_capability cap [] = false
has_capability cap (c ∷ cs) =
    let rest : Bool = has_capability cap cs in
    if text_beq (to_lower c) (to_lower cap) then true else rest

pub find_by_capability : Text → Registry → List Model
find_by_capability cap reg = keep (λ m. has_capability cap m.capabilities) reg.models

abbrev unique_from : List Text → List Model → List Text
unique_from names [] = names
unique_from names (m ∷ ms) =
    unique_from (if contains names m.model_name then names else names ++ m.model_name ∷ []) ms

unfoldable pub unique_model_names : Registry → List Text
unique_model_names reg = unique_from [] reg.models

has_format_in : Text → List ModelFormat → Bool
has_format_in format [] = false
has_format_in format (f ∷ fs) =
    let rest : Bool = has_format_in format fs in if text_beq f.type format then true else rest

pub has_format : Text → Model → Bool
has_format format m = has_format_in format m.formats

-- The part after the last slash, and the part before it.
after_last : Text → Text
after_last [] = []
after_last (c ∷ s) =
    let rest : Text = after_last s in if elem 47 s then rest else if nat_beq c 47 then s else c ∷ s

before_last : Text → Text
before_last [] = []
before_last (c ∷ s) = let rest : Text = before_last s in if elem 47 s then c ∷ rest else []

unfoldable pub bare_file_name : Model → Text
unfolding after_last
bare_file_name m = after_last m.file_name

unfoldable pub sub_dir : Model → Text
unfolding before_last
sub_dir m = before_last m.file_name

abbrev all_digits : Text → Bool
all_digits [] = true
all_digits (c ∷ s) = (leb 48 c && leb c 57) && all_digits s

-- `-(\d{5})-of-(\d{5})(\.gguf)$`, which are the last twenty bytes.
is_shard_tail : Text → Bool
is_shard_tail t =
    text_beq (take 1 t) (codes "-")
    && (all_digits (take 5 (drop 1 t))
        && (text_beq (take 4 (drop 6 t)) (codes "-of-")
            && (all_digits (take 5 (drop 10 t)) && text_beq (drop 15 t) (codes ".gguf"))))

-- The prefix and the total of a name that matches splitPattern, whose `.` takes no line feed.
split_match : Text → Option (Text × Text)
unfolding is_shard_tail
split_match base =
    let n : ℕ = length base - 20 in
    if leb 20 (length base) && (not (elem 10 (take n base)) && is_shard_tail (drop n base))
    then some (take n base, take 5 (drop 10 (drop n base)))
    else none

unfoldable pub is_split : Model → Bool
unfolding split_match
is_split m = is_some (split_match (bare_file_name m))

-- strconv.Atoi of digits.
abbrev atoi : ℕ → Text → ℕ
atoi n [] = n
atoi n (c ∷ s) = atoi (n * 10 + (c - 48)) s

unfoldable pub shard_count : Model → ℕ
unfolding split_match
shard_count m = elim (split_match (bare_file_name m)) [
  | none ↦ 1
  | some (prefix, total) ↦ atoi 0 total
]

abbrev digit : ℕ → ℕ
digit n = 48 + n % 10

-- `%05d` of a number of at most five digits.
unfoldable pub pad5 : ℕ → Text
pad5 n = digit (n / 10000) ∷ digit (n / 1000) ∷ digit (n / 100) ∷ digit (n / 10) ∷ digit n ∷ []

unfoldable pub shard_name : Text → ℕ → ℕ → Text
unfolding pad5
shard_name prefix i total =
    prefix ++ (codes "-" ++ (pad5 i ++ (codes "-of-" ++ (pad5 total ++ codes ".gguf"))))

unfoldable pub in_dir : Text → Text → Text
in_dir dir shard = if is_empty dir then shard else dir ++ (codes "/" ++ shard)

-- The shards from the number i on, of which n are left.
unfoldable pub shards_from : Text → Text → ℕ → ℕ → ℕ → List Text
unfolding shard_name in_dir
shards_from dir prefix total i zero = []
shards_from dir prefix total i (suc n) =
    in_dir dir (shard_name prefix i total) ∷ shards_from dir prefix total (suc i) n

unfoldable pub shard_file_names : Model → List Text
unfolding split_match shards_from
shard_file_names m = elim (split_match (bare_file_name m)) [
  | none ↦ m.file_name ∷ []
  | some (prefix, total) ↦ shards_from (sub_dir m) prefix (atoi 0 total) 1 (atoi 0 total)
]
