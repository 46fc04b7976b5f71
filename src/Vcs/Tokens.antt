-- ===== src/Vcs/Tokens.antt =====
-- The tokens of the GitHub provider.
use ai_coworker.Prelude.{◌≡◌, refl, Option, none, some, Text, ℤ}
use ai_coworker.Store.{Result, ok, err}
use ai_coworker.Adapter.GitHub.Repo.{split_repo}
use ai_coworker.Vcs.GitHub.{
  GitHubProvider, get_installation_id, token_of, created, with_installation, create_token_for_repo,
}

module _ (quote : Text → Text) (find : Text → Text → Result ℤ) (create : ℤ → Text → Result Text)
    (full token : Text) where
  -- The token was made for one repository alone, by the installation `id`.
  IsScoped : ℤ → Type 0
  IsScoped id =
      (owner : Text) × (repo : Text) × (split_repo full ≡ some (owner, repo))
      × (create id repo ≡ ok token)

  created-ok : (r : Result Text) → created quote find create r ≡ ok token → r ≡ ok token
  created-ok (ok t) h = h
  created-ok (err e) h = absurd (cc h)

  token_of-ok :
      (id : ℤ) (parts : Option (Text × Text))
      → token_of quote find create full id parts ≡ ok token
      → (owner : Text) × (repo : Text) × (parts ≡ some (owner, repo)) × (create id repo ≡ ok token)
  token_of-ok id none h = absurd (cc h)
  token_of-ok id (some (owner, repo)) h = (owner, repo, refl, created-ok (create id repo) h)

  with_installation-ok :
      (found : Result ℤ × GitHubProvider)
      → (with_installation quote find create full found).0 ≡ ok token
      → (id : ℤ) × (found.0 ≡ ok id) × IsScoped id
  unfolding IsScoped
  with_installation-ok (err e, p) h = absurd (cc h)
  with_installation-ok (ok id, p) h = (id, refl, token_of-ok id (split_repo full) h)

  -- A token is made by the installation that is known or found of the repository, and for that
  -- repository alone.
  create_token_for_repo-IsScoped :
      (p : GitHubProvider)
      → (create_token_for_repo quote find create full p).0 ≡ ok token
      → (id : ℤ) × ((get_installation_id quote find full p).0 ≡ ok id) × IsScoped id
  unfolding create_token_for_repo
  create_token_for_repo-IsScoped p h =
      with_installation-ok (get_installation_id quote find full p) h
