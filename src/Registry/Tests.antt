-- ===== src/Registry/Tests.antt =====
-- pkg/registry/registry.go: a model in six shards.
use auxot.Common.{map, arith, ◌≡◌, refl, none, [], ◌∷◌, Text, codes, text_comparable}
use auxot.Common.Int.{pos}
use auxot.Registry.{Model, unique_model_names, bare_file_name, shard_count, pad5, shard_file_names}
use auxot.Registry.Shards.{file_of, shard_file_names-file_of}

abbrev model_in : Text → Model
model_in file_name = record {
  id = codes "m1";
  model_name = codes "Qwen3-Coder";
  hugging_face_id = [];
  quantization = codes "Q4_K_S";
  family = [];
  parameters = codes "480B";
  default_context_size = pos 8192;
  max_context_size = pos 131072;
  vram_requirements_gb = 0;
  capabilities = codes "code" ∷ [];
  file_name = file_name;
  file_size_bytes = none;
  mmproj_file_name = [];
  formats = [];
}

abbrev third : Model
third = model_in (codes "Q4_K_S/Model-Q4_K_S-00003-of-00006.gguf")

shard_file_names-file_of_example :
    (shard_count third ≡ 6)
    × (shard_file_names third
        ≡ map (file_of (codes "Q4_K_S") (codes "Model-Q4_K_S") 6) (1 ∷ 2 ∷ 3 ∷ 4 ∷ 5 ∷ 6 ∷ []))
unfolding pad5
shard_file_names-file_of_example =
    shard_file_names-file_of third (codes "Q4_K_S") (codes "Model-Q4_K_S") 3 6 refl refl
      (omega arith) refl

sixth : file_of (codes "Q4_K_S") (codes "M") 6 6 ≡ codes "Q4_K_S/M-00006-of-00006.gguf"
unfolding pad5
sixth = refl

single : shard_file_names (model_in (codes "m.gguf")) ≡ codes "m.gguf" ∷ []
unfolding shard_file_names bare_file_name
single = refl

one_name :
    unique_model_names
      (record { version = []; generated_at = []; models = third ∷ model_in (codes "m.gguf") ∷ [] })
    ≡ codes "Qwen3-Coder" ∷ []
unfolding unique_model_names
one_name = refl
