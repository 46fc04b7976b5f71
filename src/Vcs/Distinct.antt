-- ===== src/Vcs/Distinct.antt =====
-- The repositories that are found in a text.
use ai_coworker.Prelude.{
  ◌≡◌, ◌≢◌, refl, true, false, none, some, List, [], ◌∷◌, any, All, Text, text_eq, text_eq_refl,
  arith, Bool-cases, Option-cases, inl, inr,
}
use ai_coworker.Vcs.{
  RepoMatch, Registry, resolve_url, match_key, is_seen, extract, extract_repos_from_text,
}

-- No two matches have the same provider and repository.
unfoldable pub IsDistinct : List RepoMatch → Type 0
IsDistinct [] = Unit
IsDistinct (m ∷ ms) = All (λ x. match_key x ≢ match_key m) ms × IsDistinct ms

any-later :
    (j : Text) (seen : List Text) (k : Text)
    → any (text_eq k) seen ≡ true
    → any (text_eq k) (j ∷ seen) ≡ true
unfolding any
any-later j seen k h = ground arith

module _ (r : Registry) where
  extract-new :
      (seen us : List Text) (k : Text)
      → any (text_eq k) seen ≡ true
      → All (λ m. match_key m ≢ k) (extract r seen us)
  unfolding extract
  extract-new seen [] k h = tt
  extract-new seen (u ∷ us) k h = elim (Option-cases (resolve_url r u)) [
    | inl unknown ↦ rw unknown (extract-new seen us k h)
    | inr (m, found) ↦ elim (Bool-cases (is_seen seen m)) [
      | inl met ↦ rw (found, met) (extract-new seen us k h)
      | inr fresh ↦
          rw (found, fresh)
            (
              (λ same. let met : is_seen seen m ≡ true = rw same h in cc),
              extract-new (match_key m ∷ seen) us k (any-later (match_key m) seen k h),
            )
    ]
  ]

  any-here : (k : Text) (seen : List Text) → any (text_eq k) (k ∷ seen) ≡ true
  unfolding any
  any-here k seen = rw (text_eq_refl k) refl

  extract-nil : (seen : List Text) → IsDistinct (extract r seen [])
  unfolding extract IsDistinct
  extract-nil seen = tt

  extract-unknown :
      (seen us : List Text) (u : Text)
      → resolve_url r u ≡ none
      → extract r seen (u ∷ us) ≡ extract r seen us
  unfolding extract
  extract-unknown seen us u e = rw e refl

  extract-met :
      (seen us : List Text) (u : Text) (m : RepoMatch)
      → resolve_url r u ≡ some m
      → is_seen seen m ≡ true
      → extract r seen (u ∷ us) ≡ extract r seen us
  unfolding extract
  extract-met seen us u m e h = rw (e, h) refl

  extract-fresh :
      (seen us : List Text) (u : Text) (m : RepoMatch)
      → resolve_url r u ≡ some m
      → is_seen seen m ≡ false
      → extract r seen (u ∷ us) ≡ m ∷ extract r (match_key m ∷ seen) us
  unfolding extract
  extract-fresh seen us u m e h = rw (e, h) refl

  extract-IsDistinct : (seen us : List Text) → IsDistinct (extract r seen us)
  unfolding IsDistinct
  extract-IsDistinct seen [] = extract-nil seen
  extract-IsDistinct seen (u ∷ us) = elim (Option-cases (resolve_url r u)) [
    | inl unknown ↦ rw (extract-unknown seen us u unknown) (extract-IsDistinct seen us)
    | inr (m, found) ↦ elim (Bool-cases (is_seen seen m)) [
      | inl met ↦ rw (extract-met seen us u m found met) (extract-IsDistinct seen us)
      | inr fresh ↦ rw (extract-fresh seen us u m found fresh) (
        extract-new (match_key m ∷ seen) us (match_key m) (any-here (match_key m) seen),
        extract-IsDistinct (match_key m ∷ seen) us,
      )
    ]
  ]

-- The repositories that are found in a text are distinct, whatever URLs it has.
pub extract_repos_from_text-IsDistinct :
    (find_all : Text → List Text) (r : Registry) (t : Text)
    → IsDistinct (extract_repos_from_text find_all r t)
unfolding extract_repos_from_text
extract_repos_from_text-IsDistinct find_all r t = extract-IsDistinct r [] (find_all t)
