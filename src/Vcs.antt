-- ===== src/Vcs.antt =====
-- The registry of VCS providers, internal/vcs/vcs.go. The regular expression that finds the URLs of a
-- text is Go's; its matches are an argument.
mod Tests
pub mod Distinct
pub mod GitHub
pub mod Installations
pub mod Tokens
use ai_coworker.Prelude.{
  ℕ, Bool, true, false, Option, none, some, List, [], ◌∷◌, ◌++◌, any, Text, String, text, text_eq,
  if◌then◌else◌,
}
use ai_coworker.Store.{Error, Result, ok, err}

-- `vcs.Provider`; the tokens are the platform's, by the number of the call.
pub record Provider : Type 0 where
  pub name : Text
  pub create_token_for_repo : ℕ → Text → Result Text
  pub clone_url : Text → Text
  pub token_env_var : String
  pub credential_url : Text → Text
  pub parse_repo_from_url : Text → Option Text

pub record RepoMatch : Type 0 where
  pub repo : Text
  pub provider : Provider

pub record Registry : Type 0 where
  pub providers : List Provider

abbrev pub new_registry : Registry
new_registry = record { providers = [] }

unfoldable pub register : Provider → Registry → Registry
register p r = record { providers = r.providers ++ p ∷ [] }

abbrev pub matched : Provider → Option Text → Option RepoMatch → Option RepoMatch
matched p (some repo) later = some (record { repo = repo; provider = p })
matched p none later = later

unfoldable pub resolve_by : List Provider → Text → Option RepoMatch
resolve_by [] url = none
resolve_by (p ∷ ps) url = matched p (p.parse_repo_from_url url) (resolve_by ps url)

-- The first provider that knows the URL, and the repository it finds in it.
unfoldable pub resolve_url : Registry → Text → Option RepoMatch
unfolding resolve_by
resolve_url r url = resolve_by r.providers url

unfoldable pub named : List Provider → Text → Option Provider
unfolding text_eq
named [] name = none
named (p ∷ ps) name = if text_eq p.name name then some p else named ps name

unfoldable pub by_name : Registry → Text → Option Provider
unfolding named
by_name r name = named r.providers name

abbrev pub all : Registry → List Provider
all r = r.providers

-- `fmt.Sprintf("%s:%s", provider.Name(), repo)`
abbrev pub match_key : RepoMatch → Text
match_key m = m.provider.name ++ (text ":" ++ m.repo)

-- The keys that were met.
abbrev pub is_seen : List Text → RepoMatch → Bool
is_seen seen m = any (text_eq (match_key m)) seen

-- The matches from a URL on, by the matches of the later URLs.
abbrev pub extended :
    Option RepoMatch → List Text → List RepoMatch → (RepoMatch → List RepoMatch) → List RepoMatch
extended none seen rest more = rest
extended (some m) seen rest more = if is_seen seen m then rest else m ∷ more m

unfoldable pub extract : Registry → List Text → List Text → List RepoMatch
extract r seen [] = []
extract r seen (u ∷ us) =
    extended (resolve_url r u) seen (extract r seen us) (λ m. extract r (match_key m ∷ seen) us)

-- `find_all` is `urlRe.FindAllString`.
unfoldable pub extract_repos_from_text : (Text → List Text) → Registry → Text → List RepoMatch
unfolding extract
extract_repos_from_text find_all r t = extract r [] (find_all t)
