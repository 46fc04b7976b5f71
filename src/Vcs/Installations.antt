-- ===== src/Vcs/Installations.antt =====
-- The cache of installations.
use ai_coworker.Prelude.{
  ◌≡◌, refl, ap, ◌∙◌, Option, none, some, List, [], ◌∷◌, Text, text_eq, text_eq_iff, text_eq_refl,
  ℤ, arith, if◌then◌else◌, Option-cases, inl, inr,
}
use ai_coworker.Store.{Result, ok, err}
use ai_coworker.Adapter.GitHub.Repo.{split_repo}
use ai_coworker.Vcs.GitHub.{
  GitHubProvider, put_installation, track_installation, find_installation, remembered, discovered,
  discover_installation, get_installation_id,
}

find_installation-put_installation :
    (repo other : Text) (id : ℤ) (known : List (Text × ℤ))
    → find_installation other (put_installation repo id known)
      ≡ (if text_eq repo other then some id else find_installation other known)
unfolding find_installation put_installation
find_installation-put_installation repo other id [] = refl
find_installation-put_installation repo other id ((r, i) ∷ known) = ground (
  arith,
  text_eq_iff repo other,
  text_eq_iff r repo,
  text_eq_iff r other,
  find_installation-put_installation repo other id known,
)

module _ (quote : Text → Text) (find : Text → Text → Result ℤ) where
  known-find :
      (full : Text) (p : GitHubProvider) (id : ℤ)
      → find_installation full p.repo_installations ≡ some id
      → get_installation_id quote find full p ≡ (ok id, p)
  unfolding get_installation_id
  known-find full p id e = rw e refl

  known-track :
      (full : Text) (p : GitHubProvider) (id : ℤ)
      → find_installation full (track_installation full id p).repo_installations ≡ some id
  unfolding track_installation
  known-track full p id =
      find_installation-put_installation full full id p.repo_installations
      ∙ (rw (text_eq_refl full) refl)

  -- The installation that a webhook told of a repository is the one that is used for it.
  pub get_installation_id-track_installation :
      (full : Text) (id : ℤ) (p : GitHubProvider)
      → get_installation_id quote find full (track_installation full id p)
        ≡ (ok id, track_installation full id p)
  get_installation_id-track_installation full id p =
      known-find full (track_installation full id p) id (known-track full p id)

  remembered-known :
      (full : Text) (p q : GitHubProvider) (r : Result ℤ) (id : ℤ)
      → remembered quote find full p r ≡ (ok id, q)
      → find_installation full q.repo_installations ≡ some id
  remembered-known full p q (ok i) id e =
      let same : ok i ≡ ok id = ap (λ x. x.0) e in
      let i_is : i ≡ id = cc in
      let q_is : track_installation full i p ≡ q = ap (λ x. x.1) e in
      rw (← q_is, ← i_is) (known-track full p i)
  remembered-known full p q (err x) id e = absurd (cc e)

  discovered-known :
      (full : Text) (p q : GitHubProvider) (split : Option (Text × Text)) (id : ℤ)
      → discovered quote find full p split ≡ (ok id, q)
      → find_installation full q.repo_installations ≡ some id
  discovered-known full p q none id e = absurd (cc e)
  discovered-known full p q (some (owner, repo)) id e =
      remembered-known full p q (find owner repo) id e

  -- An installation that was found once is found again without asking the service: a second request
  -- gives the same answer and leaves the provider as it is.
  pub get_installation_id-again :
      (full : Text) (p q : GitHubProvider) (id : ℤ)
      → get_installation_id quote find full p ≡ (ok id, q)
      → get_installation_id quote find full q ≡ (ok id, q)
  unfolding get_installation_id discover_installation
  get_installation_id-again full p q id e =
      elim (Option-cases (find_installation full p.repo_installations)) [
        | inl unknown ↦
            known-find full q id (discovered-known full p q (split_repo full) id (rw unknown at e))
        | inr (i, known) ↦
            let found : (ok i, p) ≡ (ok id, q) = (rw known at e) in
            let same : ok i ≡ ok id = ap (λ x. x.0) found in
            let i_is : i ≡ id = cc in
            let q_is : p ≡ q = ap (λ x. x.1) found in
            known-find full q id (rw (← q_is, ← i_is) known)
      ]
