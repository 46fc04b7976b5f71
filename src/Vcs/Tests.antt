-- ===== src/Vcs/Tests.antt =====
-- A registry of one provider.
use ai_coworker.Prelude.{some, List, [], ◌∷◌, Text, text}
use ai_coworker.Store.{ok}
use ai_coworker.Vcs.{Provider, Registry, new_registry, register, extract_repos_from_text}
use ai_coworker.Vcs.Distinct.{IsDistinct, extract_repos_from_text-IsDistinct}

abbrev hub : Provider
hub = record {
  name = text "github";
  create_token_for_repo = λ n repo. ok (text "tok");
  clone_url = λ repo. repo;
  token_env_var = "GITHUB_TOKEN";
  credential_url = λ token. token;
  parse_repo_from_url = λ url. some url;
}

abbrev registry : Registry
registry = register hub new_registry

abbrev find_all : Text → List Text
find_all t = t ∷ t ∷ []

extract_repos_from_text-IsDistinct_example :
    IsDistinct (extract_repos_from_text find_all registry (text "o/r"))
extract_repos_from_text-IsDistinct_example =
    extract_repos_from_text-IsDistinct find_all registry (text "o/r")
