-- ===== src/Config.antt =====
-- The configuration, internal/config/config.go: the defaults and the validation. Reading the file
-- and the environment is the koanf library's; what it makes of them is an argument of `load`.
mod Tests
pub mod Valid
pub mod Environment
pub mod Keys
use ai_coworker.Prelude.{
  ℕ, Bool, true, false, not, Option, none, some, List, ◌++◌, ◌&&◌, ◌||◌, Text, text, text_eq,
  is_empty, ℤ, if◌then◌else◌, ◌==◌,
}
use ai_coworker.Store.{fault, Result, ok, err}

pub record OpenAiConfig : Type 0 where
  pub base_url : Text

pub record VertexConfig : Type 0 where
  pub project_id : Text
  pub region : Text

pub record LlmConfig : Type 0 where
  pub provider : Text
  pub api_key : Text
  pub model : Text
  pub vertex : VertexConfig
  pub open_ai : OpenAiConfig

pub record SlackConfig : Type 0 where
  pub enabled : Bool
  pub app_token : Text
  pub bot_token : Text

pub record GitHubConfig : Type 0 where
  pub enabled : Bool
  pub app_id : ℤ
  pub private_key : Text
  pub webhook_secret : Text
  pub bot_username : Text
  pub allowed_users : List Text
  pub listen_addr : Text
  pub api_base_url : Text

pub record GoogleDocsConfig : Type 0 where
  pub enabled : Bool
  pub service_account_key_path : Text
  pub listen_addr : Text
  pub webhook_url : Text
  pub document_content_max_size : Text
  pub max_pagination_pages : ℤ

pub record SandboxConfig : Type 0 where
  pub runtime : Text
  pub image : Text
  pub timeout_seconds : ℤ
  pub cpu_limit : Text
  pub memory_limit : Text
  pub namespace : Text
  pub service_account : Text
  pub skill_images : List Text

pub record Config : Type 0 where
  pub database_url : Text
  pub llm : LlmConfig
  pub slack : SlackConfig
  pub github : GitHubConfig
  pub google_docs : GoogleDocsConfig
  pub sandbox : SandboxConfig
  pub workers : ℤ

abbrev pub is_zero : ℤ → Bool
is_zero (ℤ.pos n) = n == 0
is_zero (ℤ.negsuc n) = false

-- `if x == "" { x = default }`
abbrev pub or_text : Text → Text → Text
or_text x default = if is_empty x then default else x

-- `if x == 0 { x = default }`
abbrev pub or_int : ℤ → ℕ → ℤ
or_int x default = if is_zero x then ℤ.pos default else x

unfoldable pub with_defaults : Config → Config
with_defaults c = record c {
  github = record (c.github) { listen_addr = or_text c.github.listen_addr (text ":8080") };
  workers = or_int c.workers 4;
  llm = record (c.llm) {
    vertex = record (c.llm.vertex) { region = or_text c.llm.vertex.region (text "global") };
  };
  sandbox = record (c.sandbox) {
    timeout_seconds = or_int c.sandbox.timeout_seconds 600;
    runtime = or_text c.sandbox.runtime (text "docker");
  };
  google_docs = record (c.google_docs) {
    listen_addr = or_text c.google_docs.listen_addr (text ":8082");
    document_content_max_size = or_text c.google_docs.document_content_max_size (text "100KB");
    max_pagination_pages = or_int c.google_docs.max_pagination_pages 100;
  };
}

-- The error of a check; `none` is nil.
abbrev pub Check : Type 0
Check = Option Text

infixr 3 ◌andthen◌
-- The first error ends the validation.
unfoldable pub ◌andthen◌ : Check → Check → Check
none andthen k = k
some e andthen k = some e

-- `if bad { return fmt.Errorf(what) }`
unfoldable pub refuse_if : Bool → Text → Check
refuse_if bad what = if bad then some what else none

unfoldable pub need : Text → Text → Check
need x what = refuse_if (is_empty x) what

unfoldable pub when : Bool → Check → Check
when b check = if b then check else none

-- `quote` is the verb %q of fmt, `stat` the error of `os.Stat`.
module _ (quote : Text → Text) (stat : Text → Option Text) where
  -- The `switch` over the provider.
  unfoldable pub check_provider : LlmConfig → Check
  check_provider llm =
      if text_eq llm.provider (text "claude")
      then need llm.api_key (text "llm.apiKey is required for claude provider")
      else if text_eq llm.provider (text "vertex")
      then need llm.vertex.project_id (text "llm.vertex.projectId is required for vertex provider")
      else if text_eq llm.provider (text "openai")
      then need llm.open_ai.base_url (text "llm.openai.baseUrl is required for openai provider")
      else some (
          text "llm.provider must be \"claude\", \"vertex\", or \"openai\", got "
          ++ quote llm.provider)

  unfoldable pub check_sandbox : SandboxConfig → Check
  check_sandbox s =
      refuse_if (not (text_eq s.runtime (text "docker") || text_eq s.runtime (text "kubernetes")))
        (text "sandbox.runtime must be \"docker\" or \"kubernetes\", got " ++ quote s.runtime)
      andthen need s.image (text "sandbox.image is required")
      andthen refuse_if (text_eq s.runtime (text "kubernetes") && is_empty s.namespace)
          (text "sandbox.namespace is required when sandbox.runtime is 'kubernetes'")

  unfoldable pub check_github : GitHubConfig → Check
  check_github g = when g.enabled (
      refuse_if (is_zero g.app_id) (text "github.appId is required when github is enabled")
      andthen need g.private_key (text "github.privateKey is required when github is enabled")
      andthen need g.webhook_secret
          (text "github.webhookSecret is required when github is enabled"))

  unfoldable pub check_stat : Text → Check
  check_stat path = elim (stat path) [
    | none ↦ none
    | some e ↦ some (text "googledocs.serviceAccountKeyPath: " ++ e)
  ]

  unfoldable pub check_google_docs : GoogleDocsConfig → Check
  check_google_docs d = when d.enabled (
      need d.service_account_key_path
        (text "googledocs.serviceAccountKeyPath is required when googledocs is enabled")
      andthen check_stat d.service_account_key_path
      andthen need d.webhook_url
          (text "googledocs.webhookUrl is required when googledocs is enabled"))

  unfoldable pub check_slack : SlackConfig → Check
  check_slack s = when s.enabled (
      need s.app_token (text "slack.appToken is required when slack is enabled")
      andthen need s.bot_token (text "slack.botToken is required when slack is enabled"))

  unfoldable pub validate : Config → Check
  validate c =
      need c.database_url (text "database.url is required")
      andthen need c.llm.provider (text "llm.provider is required")
      andthen need c.llm.model (text "llm.model is required")
      andthen check_provider c.llm
      andthen check_sandbox c.sandbox
      andthen check_github c.github
      andthen check_google_docs c.google_docs
      andthen check_slack c.slack

  -- `Load`, from what koanf makes of the file and the environment.
  unfoldable pub load : Config → Result Config
  load parsed =
      let c = with_defaults parsed in elim (validate c) [ none ↦ ok c | some e ↦ err (fault e) ]
