-- ===== src/Config/Tests.antt =====
-- The configuration of a small installation.
use ai_coworker.Prelude.{
  ◌≡◌, ◌↔◌, refl, true, false, Option, none, [], ◌∷◌, ◌++◌, Text, text, text_eq, ℤ,
}
use ai_coworker.Store.{ok}
use ai_coworker.Config.{
  Config, with_defaults, validate, load, ◌andthen◌, refuse_if, need, when, check_provider,
  check_sandbox, check_github, check_google_docs, check_slack,
}
use ai_coworker.Config.Environment.{join, env_prefix, env_key}
use ai_coworker.Config.Keys.{env_path, env_key-env_path}
use ai_coworker.Config.Valid.{IsComplete, Loaded, validate_iff, load-IsComplete}

abbrev quote : Text → Text
quote t = t

abbrev stat : Text → Option Text
stat path = none

abbrev small : Config
small = record {
  database_url = text "postgres://db";
  llm = record {
    provider = text "claude";
    api_key = text "key";
    model = text "m";
    vertex = record { project_id = []; region = [] };
    open_ai = record { base_url = [] };
  };
  slack = record { enabled = false; app_token = []; bot_token = [] };
  github = record {
    enabled = true;
    app_id = ℤ.pos 1;
    private_key = text "pem";
    webhook_secret = text "s";
    bot_username = text "bot";
    allowed_users = [];
    listen_addr = [];
    api_base_url = [];
  };
  google_docs = record {
    enabled = false;
    service_account_key_path = [];
    listen_addr = [];
    webhook_url = [];
    document_content_max_size = [];
    max_pagination_pages = ℤ.pos 0;
  };
  sandbox = record {
    runtime = [];
    image = text "img";
    timeout_seconds = ℤ.pos 0;
    cpu_limit = [];
    memory_limit = [];
    namespace = [];
    service_account = [];
    skill_images = [];
  };
  workers = ℤ.pos 0;
}

validate_iff_example :
    (validate quote stat (with_defaults small) ≡ none) ↔ IsComplete quote stat (with_defaults small)
validate_iff_example = validate_iff quote stat (with_defaults small)

load_run : load quote stat small ≡ ok (with_defaults small)
unfolding load validate with_defaults ◌andthen◌ refuse_if need when check_provider check_sandbox
    check_github check_google_docs check_slack text_eq
load_run = refl

load-IsComplete_example : Loaded quote stat small (with_defaults small)
load-IsComplete_example = load-IsComplete quote stat small (with_defaults small) load_run

-- The variable is AI_COWORKER__GITHUB__APP_ID.
env_key-env_path_example :
    env_key (env_prefix ++ env_path (text "github") (text "appId" ∷ []))
    ≡ join (text ".") (text "github" ∷ text "appId" ∷ [])
env_key-env_path_example = env_key-env_path (text "github") (text "appId" ∷ []) (
  (refl, (refl, (refl, (refl, (refl, (refl, tt)))))),
  ((refl, (refl, (refl, (refl, (refl, tt))))), tt),
)
