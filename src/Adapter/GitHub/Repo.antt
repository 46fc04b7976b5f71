-- ===== src/Adapter/GitHub/Repo.antt =====
-- Names of repositories, `SplitRepo` of internal/vcs/github/github.go.
use ai_coworker.Prelude.{
  ℕ, ◌≡◌, refl, ap, false, Option, none, some, [], ◌∷◌, ◌++◌, All, Text, ◌==◌, if◌then◌else◌,
  ==_iff, Bool-cases, Option-cases, inl, inr,
}

abbrev longer : ℕ → Option (Text × Text) → Option (Text × Text)
longer c none = none
longer c (some (owner, repo)) = some (c ∷ owner, repo)

-- The text before and after the first slash.
unfoldable pub split_repo : Text → Option (Text × Text)
split_repo [] = none
split_repo (c ∷ t) =
    let later = longer c (split_repo t) in if c == b'/' then some ([], t) else later

parts_eq :
    (o owner r repo : Text)
    → ◌≡◌ {A = Option (Text × Text)} (some (o, r)) (some (owner, repo))
    → (o ≡ owner) × (r ≡ repo)
parts_eq o owner r repo e = (cc, cc)

ended :
    (c : ℕ) (t owner repo : Text)
    → c ≡ b'/'
    → ◌≡◌ {A = Option (Text × Text)} (some ([], t)) (some (owner, repo))
    → (c ∷ t ≡ owner ++ b'/' ∷ repo) × All (λ c. (c == b'/') ≡ false) owner
ended c t owner repo first same =
    let owner_is : [] ≡ owner = cc in
    let repo_is : t ≡ repo = cc in rw (first, ← owner_is, ← repo_is) (refl, tt)

-- A name that splits is its owner, a slash and the rest, and the owner has no slash.
pub split_repo-some :
    (t owner repo : Text)
    → split_repo t ≡ some (owner, repo)
    → (t ≡ owner ++ b'/' ∷ repo) × All (λ c. (c == b'/') ≡ false) owner
unfolding split_repo
split_repo-some [] owner repo e = absurd (cc e)
split_repo-some (c ∷ t) owner repo e = elim (Bool-cases (c == b'/')) [
  | inl slash ↦
      let same : ◌≡◌ {A = Option (Text × Text)} (some ([], t)) (some (owner, repo)) =
        (rw slash at e) in
      let first : c ≡ b'/' = (==_iff c b'/').0 slash in ended c t owner repo first same
  | inr other ↦
      let rest : longer c (split_repo t) ≡ some (owner, repo) = (rw other at e) in
      elim (Option-cases (split_repo t)) [
        | inl empty ↦ absurd (cc (rw empty at rest))
        | inr ((o, r), found) ↦
            let (whole, clear) = split_repo-some t o r found in
            let same : ◌≡◌ {A = Option (Text × Text)} (some (c ∷ o, r)) (some (owner, repo)) =
              (rw found at rest) in
            let (owner_is, repo_is) = parts_eq (c ∷ o) owner r repo same in
            rw (← owner_is, ← repo_is) (ap (λ u. c ∷ u) whole, (other, clear))
      ]
]
