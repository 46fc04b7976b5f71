-- ===== src/Vcs/GitHub.antt =====
-- The GitHub provider, internal/vcs/github/github.go. `parse` is `url.Parse`: the host and the path.
use ai_coworker.Prelude.{
  Option, none, some, List, [], ◌∷◌, ◌++◌, Text, String, text, text_eq, is_empty, ◌==◌, ℤ,
  if◌then◌else◌,
}
use ai_coworker.Store.{Error, fault, wrap, Result, ok, err}
use ai_coworker.Adapter.Mention.{contains}
use ai_coworker.Adapter.GitHub.Repo.{split_repo}

abbrev pub ParseUrl : Type 0
ParseUrl = Text → Option (Text × Text)

-- `Provider`: the host of the site, and the installations that are known by repository.
pub record GitHubProvider : Type 0 where
  pub web_host : Text
  pub repo_installations : List (Text × ℤ)

abbrev pub host_or : Text → Option (Text × Text) → Text
host_or default none = default
host_or default (some (host, path)) = if is_empty host then default else host

unfoldable pub new : ParseUrl → Text → GitHubProvider
new parse api_base_url = record {
  web_host =
      if is_empty api_base_url
      then text "github.com"
      else host_or (text "github.com") (parse api_base_url);
  repo_installations = [];
}

-- `strings.Split(t, "/")`
unfoldable pub split_slash : Text → Text → List Text
split_slash part [] = part ∷ []
split_slash part (c ∷ t) =
    let next = split_slash [] t in
    let longer = split_slash (part ++ c ∷ []) t in if c == b'/' then part ∷ next else longer

unfoldable pub trim_slash_left : Text → Text
trim_slash_left [] = []
trim_slash_left (c ∷ t) = let rest = trim_slash_left t in if c == b'/' then rest else c ∷ t

unfoldable pub trim_slash_right : Text → Text
trim_slash_right [] = []
trim_slash_right (c ∷ t) =
    let rest = trim_slash_right t in
    if c == b'/' then (if is_empty rest then [] else c ∷ rest) else c ∷ rest

abbrev pub first_two : List Text → Option Text
first_two (owner ∷ repo ∷ _) = some (owner ++ (text "/" ++ repo))
first_two _ = none

abbrev pub repo_at : Text → Option (Text × Text) → Option Text
repo_at web_host none = none
repo_at web_host (some (host, path)) =
    if text_eq host web_host
    then first_two (split_slash [] (trim_slash_right (trim_slash_left path)))
    else none

unfoldable pub parse_repo_from_url : ParseUrl → GitHubProvider → Text → Option Text
unfolding contains split_slash trim_slash_left trim_slash_right
parse_repo_from_url parse p raw =
    let url = if contains raw (text "://") then raw else text "https://" ++ raw in
    repo_at p.web_host (parse url)

unfoldable pub clone_url : GitHubProvider → Text → Text
clone_url p repo = text "https://" ++ (p.web_host ++ (text "/" ++ (repo ++ text ".git")))

unfoldable pub credential_url : GitHubProvider → Text → Text
credential_url p token = text "https://x-access-token:" ++ (token ++ (text "@" ++ p.web_host))

abbrev pub token_env_var : String
token_env_var = "GITHUB_TOKEN"

unfoldable pub put_installation : Text → ℤ → List (Text × ℤ) → List (Text × ℤ)
unfolding text_eq
put_installation repo id [] = (repo, id) ∷ []
put_installation repo id ((r, i) ∷ known) =
    if text_eq r repo then (repo, id) ∷ known else (r, i) ∷ put_installation repo id known

unfoldable pub track_installation : Text → ℤ → GitHubProvider → GitHubProvider
unfolding put_installation
track_installation repo id p = record p {
  repo_installations = put_installation repo id p.repo_installations;
}

unfoldable pub find_installation : Text → List (Text × ℤ) → Option ℤ
unfolding text_eq
find_installation repo [] = none
find_installation repo ((r, i) ∷ known) =
    if text_eq r repo then some i else find_installation repo known

abbrev pub malformed : (Text → Text) → Text → Error
malformed quote full =
    fault (text "invalid repo format " ++ (quote full ++ text ": expected owner/repo"))

-- `find` is the service's answer for an owner and a repository; `quote` is the verb %q of fmt.
module _ (quote : Text → Text) (find : Text → Text → Result ℤ) where
  abbrev pub remembered : Text → GitHubProvider → Result ℤ → Result ℤ × GitHubProvider
  remembered full p (ok id) = (ok id, track_installation full id p)
  remembered full p (err e) = (err (wrap (text "no GitHub App installation for " ++ full) e), p)

  abbrev pub discovered : Text → GitHubProvider → Option (Text × Text) → Result ℤ × GitHubProvider
  discovered full p none = (err (malformed quote full), p)
  discovered full p (some (owner, repo)) = remembered full p (find owner repo)

  unfoldable pub discover_installation : Text → GitHubProvider → Result ℤ × GitHubProvider
  discover_installation full p = discovered full p (split_repo full)

  abbrev pub known_or : Option ℤ → Text → GitHubProvider → Result ℤ × GitHubProvider
  known_or (some id) full p = (ok id, p)
  known_or none full p = discover_installation full p

  -- The installation of a repository: the known one, or the one that the service finds, which is
  -- known from then on.
  unfoldable pub get_installation_id : Text → GitHubProvider → Result ℤ × GitHubProvider
  get_installation_id full p = known_or (find_installation full p.repo_installations) full p

  -- `create` is `Apps.CreateInstallationToken`, by the installation and the name of the repository.
  module _ (create : ℤ → Text → Result Text) where
    abbrev pub created : Result Text → Result Text
    created (ok token) = ok token
    created (err e) = err (wrap (text "failed to create installation token") e)

    abbrev pub token_of : Text → ℤ → Option (Text × Text) → Result Text
    token_of full id none = err (malformed quote full)
    token_of full id (some (owner, repo)) = created (create id repo)

    abbrev pub with_installation : Text → Result ℤ × GitHubProvider → Result Text × GitHubProvider
    with_installation full (err e, p) = (err e, p)
    with_installation full (ok id, p) = (token_of full id (split_repo full), p)

    unfoldable pub create_token_for_repo : Text → GitHubProvider → Result Text × GitHubProvider
    unfolding get_installation_id
    create_token_for_repo full p = with_installation full (get_installation_id full p)
