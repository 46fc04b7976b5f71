-- ===== src/Executor/ClaudeCode/Tokens.antt =====
-- What the sandbox's environment has.
use ai_coworker.Prelude.{
  ◌≡◌, refl, ◌∙◌, false, Option, none, some, List, [], ◌∷◌, any, All, Text, String, Dict, text,
  text_eq, lookup, lookup-insert, is_empty, Bool-cases, inl, inr,
}
use package.text.Mathlib.Text.{◌==◌ as str_eq}
use ai_coworker.Store.{Result, ok, err}
use ai_coworker.Vcs.{Provider, RepoMatch, Registry}
use ai_coworker.Executor.ClaudeCode.{
  VcsContext, Gathered, with_token, mark, take_token, ask_token, counted, take_primary,
  primary_token, other_tokens, with_urls, join_lines, collect_vcs_tokens,
}

module _ (key : String) where
  -- The provider keeps its token under another name.
  abbrev IsOther : Provider → Type 0
  IsOther p = (str_eq p.token_env_var key) ≡ false

  lookup-with_token :
      (p : Provider) (token : Text) (g : Gathered)
      → IsOther p
      → lookup key (with_token p token g).env_vars ≡ lookup key g.env_vars
  lookup-with_token p token g other = elim (Bool-cases (is_empty token)) [
    | inl empty ↦ rw empty refl
    | inr full ↦ rw full (lookup-insert p.token_env_var key token g.env_vars ∙ (rw other refl))
  ]

  lookup-take_token :
      (p : Provider) (r : Result Text) (g : Gathered)
      → IsOther p
      → lookup key (take_token p r g).env_vars ≡ lookup key g.env_vars
  lookup-take_token p (ok token) g other = lookup-with_token p token g other
  lookup-take_token p (err e) g other = refl

  lookup-take_primary :
      (p : Provider) (r : Result Text) (g : Gathered)
      → IsOther p
      → lookup key (take_primary p r g).env_vars ≡ lookup key g.env_vars
  lookup-take_primary p (err e) g other = refl
  lookup-take_primary p (ok token) g other = elim (Bool-cases (is_empty token)) [
    | inl empty ↦ rw empty refl
    | inr full ↦ rw full (lookup-insert p.token_env_var key token g.env_vars ∙ (rw other refl))
  ]

  lookup-other_tokens :
      (ms : List RepoMatch) (g : Gathered)
      → All (λ m. IsOther m.provider) ms
      → lookup key (other_tokens ms g).env_vars ≡ lookup key g.env_vars
  unfolding other_tokens
  lookup-other_tokens [] g h = refl
  lookup-other_tokens (m ∷ ms) g (here, h) =
      elim (Bool-cases (any (text_eq m.provider.name) g.seen)) [
        | inl met ↦ rw met (lookup-other_tokens ms g h)
        | inr fresh ↦ rw fresh (
            lookup-other_tokens ms
              (take_token m.provider (ask_token m.provider m.repo g) (counted (mark m.provider g)))
              h
            ∙ lookup-take_token m.provider (ask_token m.provider m.repo g)
                (counted (mark m.provider g)) here)
      ]

  abbrev IsOtherPrimary : Option Provider → Type 0
  IsOtherPrimary none = Unit
  IsOtherPrimary (some p) = IsOther p

  lookup-primary_token :
      (o : Option Provider) (repo : Text) (g : Gathered)
      → IsOtherPrimary o
      → lookup key (primary_token o repo g).env_vars ≡ lookup key g.env_vars
  lookup-primary_token none repo g other = refl
  lookup-primary_token (some p) repo g other = elim (Bool-cases (is_empty repo)) [
    | inl empty ↦ rw empty refl
    | inr full ↦ rw full (lookup-take_primary p (ask_token p repo g) (counted g) other)
  ]

  lookup-with_urls :
      (urls : List Text) (m : Dict)
      → (str_eq "VCS_CREDENTIAL_URLS" key) ≡ false
      → lookup key (with_urls urls m) ≡ lookup key m
  lookup-with_urls [] m other = refl
  lookup-with_urls (u ∷ us) m other =
      lookup-insert "VCS_CREDENTIAL_URLS" key (join_lines (u ∷ us)) m ∙ (rw other refl)

  -- The variables of the executor's own environment reach the sandbox as they are, except under the
  -- names of the providers' tokens and of the credential URLs.
  pub lookup-collect_vcs_tokens :
      (r : Option Registry) (base : Dict) (c : VcsContext)
      → (str_eq "VCS_CREDENTIAL_URLS" key) ≡ false
      → IsOtherPrimary c.primary
      → All (λ m. IsOther m.provider) c.matches
      → lookup key (collect_vcs_tokens r base c) ≡ lookup key base
  unfolding collect_vcs_tokens
  lookup-collect_vcs_tokens none base c fresh primary others = refl
  lookup-collect_vcs_tokens (some r) base c fresh primary others =
      let start : Gathered = record { env_vars = base; cred_urls = []; seen = []; calls = 0 } in
      let first = primary_token c.primary c.repo start in
      lookup-with_urls (other_tokens c.matches first).cred_urls
        (other_tokens c.matches first).env_vars fresh
      ∙ lookup-other_tokens c.matches first others
      ∙ lookup-primary_token c.primary c.repo start primary
