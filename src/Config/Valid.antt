-- ===== src/Config/Valid.antt =====
-- Which configurations are accepted.
use ai_coworker.Prelude.{
  ◌==◌, ℕ, zero, suc, inl, inr, ◌≡◌, refl, ◌≢◌, ◌↔◌, ◌⊎◌, Bool, true, false, Option, none, some, [],
  ◌∷◌, Text, text, text_eq, text_eq_iff, is_empty, subst, ℤ, arith,
}
use ai_coworker.Store.{ok}
use ai_coworker.Config.{
  Config, LlmConfig, SandboxConfig, GitHubConfig, GoogleDocsConfig, SlackConfig, is_zero, or_text,
  or_int, with_defaults, Check, ◌andthen◌, refuse_if, need, when, check_provider, check_sandbox,
  check_github, check_stat, check_google_docs, check_slack, validate, load,
}

-- The provider is known, and its own setting is there.
abbrev IsProvided : LlmConfig → Type 0
IsProvided llm =
    (llm.provider ≡ text "claude") × (llm.api_key ≢ [])
    ⊎ (llm.provider ≡ text "vertex") × (llm.vertex.project_id ≢ [])
    ⊎ (llm.provider ≡ text "openai") × (llm.open_ai.base_url ≢ [])

-- A sandbox runs on Docker, or on Kubernetes in a namespace.
abbrev IsRunnable : SandboxConfig → Type 0
IsRunnable s = (s.runtime ≡ text "docker") ⊎ (s.runtime ≡ text "kubernetes") × (s.namespace ≢ [])

andthen_iff :
    {P Q : Type 0} {b : Check} {a : Check}
    → (a ≡ none) ↔ P
    → (b ≡ none) ↔ Q
    → ((a andthen b) ≡ none) ↔ P × Q
unfolding ◌andthen◌
andthen_iff {b = b} {a = none} p q = ((λ e. (p.0 refl, q.0 e)), (λ h. q.1 h.1))
andthen_iff {b = b} {a = some e} p q = ground (arith, p)

need_iff : (x what : Text) → (need x what ≡ none) ↔ (x ≢ [])
unfolding need refuse_if
need_iff [] what = ground arith
need_iff (c ∷ x) what = ground arith

when_iff : (b : Bool) (k : Check) → (when b k ≡ none) ↔ (b ≡ true → k ≡ none)
unfolding when
when_iff false k = ((λ _ e. cc), (λ _. refl))
when_iff true k = ((λ e _. e), (λ f. f refl))

refuse_if_iff : (b : Bool) (what : Text) → (refuse_if b what ≡ none) ↔ (b ≡ false)
unfolding refuse_if
refuse_if_iff b what = ground arith

-- The texts that the two switches compare with are different.
names_differ :
    (text_eq (text "vertex") (text "claude") ≡ false)
    × (text_eq (text "openai") (text "claude") ≡ false)
    × (text_eq (text "openai") (text "vertex") ≡ false)
    × (text_eq (text "docker") (text "kubernetes") ≡ false)
unfolding text_eq
names_differ = (refl, refl, refl, refl)

is_empty_iff : (x : Text) → (is_empty x ≡ false) ↔ (x ≢ [])
is_empty_iff [] = ground arith
is_empty_iff (c ∷ x) = ground arith

module _ (quote : Text → Text) (stat : Text → Option Text) where
  check_provider_iff : (llm : LlmConfig) → (check_provider quote stat llm ≡ none) ↔ IsProvided llm
  unfolding check_provider
  check_provider_iff llm = ground (
    arith,
    names_differ,
    text_eq_iff llm.provider (text "claude"),
    text_eq_iff llm.provider (text "vertex"),
    text_eq_iff llm.provider (text "openai"),
    need_iff llm.api_key (text "llm.apiKey is required for claude provider"),
    need_iff llm.vertex.project_id (text "llm.vertex.projectId is required for vertex provider"),
    need_iff llm.open_ai.base_url (text "llm.openai.baseUrl is required for openai provider"),
  )

  check_sandbox_iff :
      (s : SandboxConfig) → (check_sandbox quote stat s ≡ none) ↔ IsRunnable s × (s.image ≢ [])
  unfolding check_sandbox ◌andthen◌ refuse_if
  check_sandbox_iff s = ground (
    arith,
    names_differ,
    text_eq_iff s.runtime (text "docker"),
    text_eq_iff s.runtime (text "kubernetes"),
    is_empty_iff s.namespace,
    need_iff s.image (text "sandbox.image is required"),
  )

  abbrev HasGitHub : GitHubConfig → Type 0
  HasGitHub g =
      g.enabled ≡ true → (is_zero g.app_id ≡ false) × (g.private_key ≢ []) × (g.webhook_secret ≢ [])

  check_github_iff : (g : GitHubConfig) → (check_github quote stat g ≡ none) ↔ HasGitHub g
  unfolding check_github when ◌andthen◌ refuse_if
  check_github_iff g = ground (
    arith,
    need_iff g.private_key (text "github.privateKey is required when github is enabled"),
    need_iff g.webhook_secret (text "github.webhookSecret is required when github is enabled"),
  )

  abbrev HasGoogleDocs : GoogleDocsConfig → Type 0
  HasGoogleDocs d =
      d.enabled ≡ true
      → (d.service_account_key_path ≢ [])
        × (stat d.service_account_key_path ≡ none)
        × (d.webhook_url ≢ [])

  check_stat_iff : (path : Text) → (check_stat quote stat path ≡ none) ↔ (stat path ≡ none)
  unfolding check_stat
  check_stat_iff path = ground arith

  check_google_docs_iff :
      (d : GoogleDocsConfig) → (check_google_docs quote stat d ≡ none) ↔ HasGoogleDocs d
  unfolding check_google_docs when ◌andthen◌
  check_google_docs_iff d = ground (
    arith,
    need_iff d.service_account_key_path
        (text "googledocs.serviceAccountKeyPath is required when googledocs is enabled"),
    check_stat_iff d.service_account_key_path,
    need_iff d.webhook_url (text "googledocs.webhookUrl is required when googledocs is enabled"),
  )

  abbrev HasSlack : SlackConfig → Type 0
  HasSlack s = s.enabled ≡ true → (s.app_token ≢ []) × (s.bot_token ≢ [])

  check_slack_iff : (s : SlackConfig) → (check_slack quote stat s ≡ none) ↔ HasSlack s
  unfolding check_slack when ◌andthen◌
  check_slack_iff s = ground (
    arith,
    need_iff s.app_token (text "slack.appToken is required when slack is enabled"),
    need_iff s.bot_token (text "slack.botToken is required when slack is enabled"),
  )

  -- What the sections of an accepted configuration hold.
  abbrev pub IsComplete : Config → Type 0
  IsComplete c =
      (c.database_url ≢ [])
      × ((c.llm.provider ≢ [])
          × ((c.llm.model ≢ [])
              × (IsProvided c.llm
                  × ((IsRunnable c.sandbox × (c.sandbox.image ≢ []))
                      × (HasGitHub c.github × (HasGoogleDocs c.google_docs × HasSlack c.slack))))))

  -- A configuration passes the validation just if every required setting is there: the database, a
  -- known provider with its own setting, the model, a known runtime with its image and, on
  -- Kubernetes, its namespace, and for each channel that is enabled its credentials.
  pub validate_iff : (c : Config) → (validate quote stat c ≡ none) ↔ IsComplete c
  unfolding validate
  validate_iff c = andthen_iff (need_iff c.database_url (text "database.url is required")) (
      andthen_iff (need_iff c.llm.provider (text "llm.provider is required")) (
        andthen_iff (need_iff c.llm.model (text "llm.model is required")) (
          andthen_iff (check_provider_iff c.llm) (
            andthen_iff (check_sandbox_iff c.sandbox) (
              andthen_iff (check_github_iff c.github)
                (andthen_iff (check_google_docs_iff c.google_docs) (check_slack_iff c.slack)))))))

  -- A setting of the file, with the default for one that is left out.
  abbrev pub Defaulted : {A : Type 0} → A → A → A → A → Type 0
  Defaulted unset default given x = (given ≡ unset) × (x ≡ default) ⊎ (given ≢ unset) × (x ≡ given)

  or_text-Defaulted : (given d : Text) → Defaulted [] d given (or_text given d)
  or_text-Defaulted [] d = inl (refl, refl)
  or_text-Defaulted (c ∷ given) d = inr ((λ e. cc), refl)

  or_int-Defaulted : (given : ℤ) (n : ℕ) → Defaulted (ℤ.pos 0) (ℤ.pos n) given (or_int given n)
  or_int-Defaulted (ℤ.pos zero) n = inl (refl, refl)
  or_int-Defaulted (ℤ.pos (suc k)) n =
      let some_given : (suc k == 0) ≡ false = ground arith in inr ((λ e. cc), rw some_given refl)
  or_int-Defaulted (ℤ.negsuc k) n = inr ((λ e. cc), refl)

  -- What a configuration holds that was loaded from one that was read.
  abbrev pub Loaded : Config → Config → Type 0
  Loaded parsed c =
      IsComplete c
      × Defaulted (ℤ.pos 0) (ℤ.pos 4) parsed.workers c.workers
      × Defaulted (ℤ.pos 0) (ℤ.pos 600) parsed.sandbox.timeout_seconds c.sandbox.timeout_seconds
      × Defaulted [] (text "docker") parsed.sandbox.runtime c.sandbox.runtime
      × Defaulted [] (text "global") parsed.llm.vertex.region c.llm.vertex.region
      × Defaulted [] (text ":8080") parsed.github.listen_addr c.github.listen_addr
      × Defaulted [] (text ":8082") parsed.google_docs.listen_addr c.google_docs.listen_addr
      × Defaulted [] (text "100KB") parsed.google_docs.document_content_max_size
          c.google_docs.document_content_max_size
      × Defaulted (ℤ.pos 0) (ℤ.pos 100) parsed.google_docs.max_pagination_pages
          c.google_docs.max_pagination_pages

  load-some :
      (parsed c : Config)
      → load quote stat parsed ≡ ok c
      → (with_defaults parsed ≡ c) × (validate quote stat (with_defaults parsed) ≡ none)
  unfolding load
  load-some parsed c e = ground arith

  -- A configuration that is loaded is complete, and each setting that has a default is the default if
  -- it was left out, and else what was given: 4 workers, 600 seconds, the runtime "docker", the region
  -- "global", the addresses ":8080" and ":8082", the limit "100KB" and 100 pages.
  pub load-IsComplete : (parsed c : Config) → load quote stat parsed ≡ ok c → Loaded parsed c
  unfolding with_defaults
  load-IsComplete parsed c e =
      let (same, accepted) = load-some parsed c e in
      let filled = (validate_iff (with_defaults parsed)).0 accepted in
      subst (Loaded parsed) same (
        filled,
        or_int-Defaulted parsed.workers 4,
        or_int-Defaulted parsed.sandbox.timeout_seconds 600,
        or_text-Defaulted parsed.sandbox.runtime (text "docker"),
        or_text-Defaulted parsed.llm.vertex.region (text "global"),
        or_text-Defaulted parsed.github.listen_addr (text ":8080"),
        or_text-Defaulted parsed.google_docs.listen_addr (text ":8082"),
        or_text-Defaulted parsed.google_docs.document_content_max_size (text "100KB"),
        or_int-Defaulted parsed.google_docs.max_pagination_pages 100,
      )
