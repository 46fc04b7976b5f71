-- ===== src/Sandbox.antt =====
-- The sandboxes, internal/sandbox: what a runtime is asked for and what it returns.
mod Tests
pub mod Kubernetes
pub mod Docker
use ai_coworker.Prelude.{
  Option, some, List, ◌≡◌, refl, Text, Dict, insert, is_empty, ℤ, if◌then◌else◌,
}
use ai_coworker.Engine.Intent.{entries}

-- `env_vars` is `none` for a nil map.
pub record ExecRequest : Type 0 where
  pub image : Text
  pub clone_url : Text
  pub branch : Text
  pub prompt : Text
  pub env_vars : Option Dict
  pub binds : List Text
  pub timeout : ℤ
  pub cpu_limit : Text
  pub mem_limit : Text
  pub skill_images : List Text

pub record ExecResult : Type 0 where
  pub output : Text
  pub exit_code : ℤ
  pub error : Text

abbrev pub with_branch : Text → Dict → Dict
with_branch branch m = if is_empty branch then m else insert "CLONE_BRANCH" branch m

abbrev pub with_clone : Text → Text → Dict → Dict
with_clone url branch m = if is_empty url then m else with_branch branch (insert "CLONE_URL" url m)

unfoldable pub prepare_env_vars : ExecRequest → ExecRequest
unfolding insert
prepare_env_vars req = record req {
  env_vars = some (with_clone req.clone_url req.branch (entries req.env_vars));
}
