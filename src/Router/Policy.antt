-- ===== src/Router/Policy.antt =====
-- internal/router/wshandler.go: the policy that a worker is given when it connects, from the
-- router's configuration.
use auxot.Common.{
  ◌+◌, Bool, false, ◌&&◌, ◌||◌, not, List, [], ◌∷◌, ◌++◌, Text, codes, text_beq, text_comparable,
  has_prefix, leb, is_empty, is_nil, if◌then◌else◌,
}
use auxot.Common.Int.{ℤ, pos}
use auxot.Protocol.Worker.{HelloMessage, Policy}

-- The fields of Config that WSHandler reads, but for its times.
pub record Config : Type 0 where
  pub model_name : Text
  pub quantization : Text
  pub context_size : ℤ
  pub max_parallel : ℤ
  pub worker_type : Text
  pub cli_type : Text
  pub cli_tools : List Text

-- `strings.ToLower` on text without the letters beyond ASCII.
abbrev pub to_lower : Text → Text
to_lower [] = []
to_lower (c ∷ s) =
    let rest : Text = to_lower s in (if leb 65 c && leb c 90 then c + 32 else c) ∷ rest

-- `strings.Contains` for text that is not empty.
abbrev pub contains_text : Text → Text → Bool
contains_text [] part = false
contains_text (c ∷ s) part = has_prefix (c ∷ s) part || contains_text s part

abbrev when : Bool → Text → List Text
when test name = if test then name ∷ [] else []

-- The four tests on the name in lower case.
abbrev inferred : Text → List Text
inferred name =
    when
      (contains_text name (codes "vision")
        || contains_text name (codes "multimodal")
        || contains_text name (codes "vl-"))
      (codes "vision")
    ++ (when
          (contains_text name (codes "code")
            || contains_text name (codes "coder")
            || contains_text name (codes "starcoder"))
          (codes "code")
        ++ (when (contains_text name (codes "embed") || contains_text name (codes "embedding"))
              (codes "embedding")
            ++ when
                (contains_text name (codes "deepseek-r1")
                  || contains_text name (codes "kimi")
                  || contains_text name (codes "qwq"))
                (codes "reasoning")))

unfoldable pub infer_capabilities : Text → List Text
infer_capabilities model_name =
    let caps : List Text = inferred (to_lower model_name) in
    if is_nil caps then codes "chat" ∷ [] else caps

unfoldable pub is_cli_backend : Text → Bool
is_cli_backend backend =
    let b : Text = to_lower backend in
    text_beq b (codes "claude") || text_beq b (codes "cursor") || text_beq b (codes "codex")

unfoldable pub build_cli_policy : Config → HelloMessage → Policy
build_cli_policy config hello = record {
  worker_type = codes "cli";
  cli_type = if is_empty config.cli_type then hello.capabilities.backend else config.cli_type;
  builtin_tools = config.cli_tools;
  model_name =
      if text_beq config.worker_type (codes "cli") && not (is_empty config.model_name)
      then config.model_name
      else hello.capabilities.model;
  quantization = [];
  context_size = pos 200000;
  max_parallelism = pos 1;
  parameters = [];
  family = [];
  capabilities = codes "chat" ∷ codes "reasoning" ∷ codes "code" ∷ [];
}

unfoldable pub build_gpu_policy : Config → Policy
unfolding infer_capabilities
build_gpu_policy config = record {
  worker_type = [];
  cli_type = [];
  builtin_tools = [];
  model_name = config.model_name;
  quantization = config.quantization;
  context_size = config.context_size;
  max_parallelism = config.max_parallel;
  parameters = [];
  family = [];
  capabilities = infer_capabilities config.model_name;
}

-- The policy by the configuration's type of worker, or else by the backend.
unfoldable pub policy_for : Config → HelloMessage → Policy
unfolding is_cli_backend build_cli_policy build_gpu_policy
policy_for config hello =
    if text_beq config.worker_type (codes "cli") || is_cli_backend hello.capabilities.backend
    then build_cli_policy config hello
    else build_gpu_policy config
