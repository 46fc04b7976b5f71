-- ===== src/Executor/ClaudeCode.antt =====
-- The executor that runs Claude Code in a sandbox, internal/executor/claudecode.
pub mod Prompt
pub mod Tokens
use ai_coworker.Prelude.{
  ℕ, suc, ◌≡◌, refl, Bool, true, false, not, Option, none, some, List, [], ◌∷◌, ◌++◌, ◌&&◌, any,
  map, Text, Dict, String, text, text_eq, lookup, get, insert, is_empty, is_some, newline, ℤ, itoa,
  if◌then◌else◌,
}
use ai_coworker.Domain.{Role, Message}
use ai_coworker.Store.{Error, wrap, Result, ok, err}
use ai_coworker.Engine.Intent.{entries}
use ai_coworker.Config.{is_zero}
use ai_coworker.Sandbox.{ExecRequest, ExecResult}
use ai_coworker.Vcs.{Provider, RepoMatch, Registry, by_name, extract_repos_from_text}
pub use ai_coworker.Executor.ClaudeCode.Prompt.{
  Input, is_pull_request, line_of, file_lines, unless_empty, speaker, history_part, event_part,
}
unfoldable pub use ai_coworker.Executor.ClaudeCode.Prompt.{event_section, spoken, build_prompt}

-- The primary provider, its repository and branch, and all the repositories that were found.
pub record VcsContext : Type 0 where
  pub primary : Option Provider
  pub repo : Text
  pub branch : Text
  pub matches : List RepoMatch

abbrev pub extracted : (Text → List RepoMatch) → List Text → List RepoMatch
extracted extract [] = []
extracted extract (t ∷ ts) = extract t ++ extracted extract ts

abbrev pub named_by : Option Registry → Text → Option Provider
named_by none name = none
named_by (some r) name = if is_empty name then none else by_name r name

-- Tier 1: the metadata of an event of a VCS adapter.
unfoldable pub from_event : Option Registry → Option Dict → VcsContext
unfolding get by_name
from_event registry meta =
    let m = entries meta in
    record {
      primary = if is_empty (get "repo" m) then none else named_by registry (get "vcs" m);
      repo = get "repo" m;
      branch = get "pr_branch" m;
      matches = [];
    }

-- The first repository that was found, where the event has none.
abbrev pub or_first : VcsContext → List RepoMatch → VcsContext
or_first c [] = c
or_first c (m ∷ ms) =
    if is_empty c.repo
    then record c { primary = some m.provider; repo = m.repo; matches = m ∷ ms }
    else record c { matches = m ∷ ms }

-- The texts of tier 2: the input, the history, and the values of the metadata. Go ranges over a map
-- in any order; `range` is the order it takes.
abbrev pub texts : (Dict → List Text) → Input → List Text
texts range c = c.task_input ∷ (map (λ m. m.content) c.messages ++ range (entries c.metadata))

module _ (find_all : Text → List Text) (range : Dict → List Text) where
  unfoldable pub resolve_vcs_context : Option Registry → Input → VcsContext
  unfolding from_event
  resolve_vcs_context none c = from_event none c.metadata
  resolve_vcs_context (some r) c =
      or_first (from_event (some r) c.metadata)
        (extracted (extract_repos_from_text find_all r) (texts range c))

-- What is gathered: the environment, the credential URLs, the providers that are done, and how many
-- tokens were asked for.
pub record Gathered : Type 0 where
  pub env_vars : Dict
  pub cred_urls : List Text
  pub seen : List Text
  pub calls : ℕ

abbrev pub with_token : Provider → Text → Gathered → Gathered
with_token p token g = if is_empty token then g else record g {
  env_vars = insert p.token_env_var token g.env_vars;
  cred_urls = g.cred_urls ++ p.credential_url token ∷ [];
}

abbrev pub mark : Provider → Gathered → Gathered
mark p g = record g { seen = p.name ∷ g.seen }

-- An error is only logged.
abbrev pub take_token : Provider → Result Text → Gathered → Gathered
take_token p (ok token) g = with_token p token g
take_token p (err e) g = g

abbrev pub ask_token : Provider → Text → Gathered → Result Text
ask_token p repo g = p.create_token_for_repo g.calls repo

abbrev pub counted : Gathered → Gathered
counted g = record g { calls = suc g.calls }

-- The primary provider is done only if it gave a token.
abbrev pub take_primary : Provider → Result Text → Gathered → Gathered
take_primary p (ok token) g = if is_empty token then g else mark p (with_token p token g)
take_primary p (err e) g = g

abbrev pub primary_token : Option Provider → Text → Gathered → Gathered
primary_token none repo g = g
primary_token (some p) repo g =
    if is_empty repo then g else take_primary p (ask_token p repo g) (counted g)

-- The other providers, once each.
unfoldable pub other_tokens : List RepoMatch → Gathered → Gathered
unfolding insert any text_eq
other_tokens [] g = g
other_tokens (m ∷ ms) g =
    let skipped = other_tokens ms g in
    let taken =
      other_tokens ms
        (take_token m.provider (ask_token m.provider m.repo g) (counted (mark m.provider g))) in
    if any (text_eq m.provider.name) g.seen then skipped else taken

-- `strings.Join(lines, "\n")`
unfoldable pub join_lines : List Text → Text
join_lines [] = []
join_lines (l ∷ []) = l
join_lines (l ∷ k ∷ ls) = l ++ newline ∷ join_lines (k ∷ ls)

abbrev pub with_urls : List Text → Dict → Dict
with_urls [] m = m
with_urls (u ∷ us) m = insert "VCS_CREDENTIAL_URLS" (join_lines (u ∷ us)) m

abbrev pub finished : Gathered → Dict
finished g = with_urls g.cred_urls g.env_vars

-- The environment of the sandbox: that of the executor, with a token for each provider.
unfoldable pub collect_vcs_tokens : Option Registry → Dict → VcsContext → Dict
unfolding insert other_tokens join_lines
collect_vcs_tokens none base c = base
collect_vcs_tokens (some r) base c = finished (
    other_tokens c.matches (
      primary_token c.primary c.repo
        (record { env_vars = base; cred_urls = []; seen = []; calls = 0 })))

-- What the executor is configured with, besides its runtime, its environment and the registry.
pub record Settings : Type 0 where
  pub image : Text
  pub binds : List Text
  pub timeout : ℤ
  pub cpu_limit : Text
  pub mem_limit : Text
  pub skill_images : List Text

abbrev pub clone_url_of : Option Provider → Text → Text
clone_url_of none repo = []
clone_url_of (some p) repo = if is_empty repo then [] else p.clone_url repo

-- A run that fails inside the sandbox is told in the response; it is no error.
abbrev pub response_of : Result ExecResult → Result Text
response_of (err e) = err (wrap (text "sandbox execution failed") e)
response_of (ok r) =
    if is_zero r.exit_code
    then ok r.output
    else ok (text "Execution failed (exit code " ++ (itoa r.exit_code ++ (text "): " ++ r.error)))

module _ (quote : Text → Text) (find_all : Text → List Text) (range : Dict → List Text)
    (registry : Option Registry) (base : Dict) (settings : Settings) where
  unfoldable pub request : Input → ExecRequest
  request c =
      let v = resolve_vcs_context find_all range registry c in
      record {
        clone_url = clone_url_of v.primary v.repo;
        branch = v.branch;
        prompt = build_prompt quote c;
        env_vars = some (collect_vcs_tokens registry base v);
        image = settings.image;
        binds = settings.binds;
        timeout = settings.timeout;
        cpu_limit = settings.cpu_limit;
        mem_limit = settings.mem_limit;
        skill_images = settings.skill_images;
      }

  -- `exec` is the runtime.
  unfoldable pub execute : (ExecRequest → Result ExecResult) → Input → Result Text
  execute exec c = response_of (exec (request c))
