-- ===== src/Command.antt =====
-- The command, cmd/ai-coworker/main.go: which components the configuration chooses, and what reaches the
-- sandbox of it. What the operating system answers is an argument.
use ai_coworker.Prelude.{[], ◌∷◌, ◌++◌, Text, Dict, text, text_eq, is_empty, if◌then◌else◌}
use ai_coworker.Store.{Result, ok, err}
use ai_coworker.Config.{LlmConfig, SandboxConfig}
use ai_coworker.Executor.ClaudeCode.{Settings}

-- The provider of the language model, and the parameters it is made with.
pub data LlmChoice : Type 0 where
  vertex : Text → Text → Text → LlmChoice
  open_ai : Text → Text → Text → LlmChoice
  anthropic : Text → Text → LlmChoice

unfoldable pub llm_provider : LlmConfig → LlmChoice
unfolding text_eq
llm_provider c =
    if text_eq c.provider (text "vertex")
    then LlmChoice.vertex c.vertex.project_id c.vertex.region c.model
    else if text_eq c.provider (text "openai")
    then LlmChoice.open_ai c.open_ai.base_url c.api_key c.model
    else LlmChoice.anthropic c.api_key c.model

pub data RuntimeChoice : Type 0 where
  kubernetes : Text → Text → RuntimeChoice
  docker : RuntimeChoice

unfoldable pub sandbox_runtime : SandboxConfig → RuntimeChoice
unfolding text_eq
sandbox_runtime c =
    if text_eq c.runtime (text "kubernetes")
    then RuntimeChoice.kubernetes c.namespace c.service_account
    else RuntimeChoice.docker

-- `adc_variable` is GOOGLE_APPLICATION_CREDENTIALS, `home` the home directory, `read` reads a file.
module _ (adc_variable : Text) (home : Result Text) (read : Text → Result Text) where
  abbrev pub below_home : Result Text → Result Text
  below_home (err e) = err e
  below_home (ok dir) = ok (dir ++ text "/.config/gcloud/application_default_credentials.json")

  abbrev pub adc_path : Result Text
  adc_path = if is_empty adc_variable then below_home home else ok adc_variable

  abbrev pub read_at : Result Text → Result Text
  read_at (err e) = err e
  read_at (ok path) = read path

  abbrev pub vertex_env : LlmConfig → Result Text → Result Dict
  vertex_env c (err e) = err e
  vertex_env c (ok credentials) = ok (
      ("CLAUDE_CODE_USE_VERTEX", text "1")
      ∷ ("ANTHROPIC_VERTEX_PROJECT_ID", c.vertex.project_id)
      ∷ ("ANTHROPIC_VERTEX_REGION", c.vertex.region)
      ∷ ("GOOGLE_APPLICATION_CREDENTIALS_JSON", credentials)
      ∷ [])

  abbrev pub if_set : Text → Dict → Dict
  if_set t m = if is_empty t then [] else m

  -- The environment of the sandbox; an error ends the program.
  unfoldable pub sandbox_env : LlmConfig → Result Dict
  unfolding text_eq
  sandbox_env c =
      if text_eq c.provider (text "vertex")
      then vertex_env c (read_at adc_path)
      else if text_eq c.provider (text "openai")
      then ok (
          if_set c.api_key (("OPENAI_API_KEY", c.api_key) ∷ [])
          ++ if_set c.open_ai.base_url (("OPENAI_BASE_URL", c.open_ai.base_url) ∷ []))
      else ok (("ANTHROPIC_API_KEY", c.api_key) ∷ [])

-- The settings of the executor; no binds are given.
unfoldable pub executor_settings : SandboxConfig → Settings
executor_settings c = record {
  image = c.image;
  binds = [];
  timeout = c.timeout_seconds;
  cpu_limit = c.cpu_limit;
  mem_limit = c.memory_limit;
  skill_images = c.skill_images;
}
