-- ===== src/Adapter/GitHub/Allowed.antt =====
-- Who is heard by the GitHub adapter.
use ai_coworker.Prelude.{
  ◌⊎◌, inl, inr, Bool-cases, subst, text_eq_refl, ◌++◌, ◌≡◌, refl, ◌↔◌, Bool, true, false, Option,
  none, some, List, [], ◌∷◌, ◌&&◌, ◌||◌, any, Text, text, text_eq, text_eq_iff, ℤ, arith, ◌≢◌,
  is_empty, trim_space,
}
use ai_coworker.Domain.{IncomingEvent}
use ai_coworker.Store.{Result, ok, err}
use ai_coworker.Store.Rows.{In, In-any, any-In}
use ai_coworker.Adapter.Mention.{contains, Has, contains_iff}
use ai_coworker.Adapter.GitHub.Repo.{split_repo}
use ai_coworker.Adapter.GitHub.{
  Access, allow, new_access, is_user_allowed, is_bot_user, IssueComment, ReviewComment, Review,
  handed, denial, deny_unauthorized, issue_event, is_addressed, handle_issue_comment, is_nil,
  is_review_relevant, build_review_events, Fetch, resolve_reply_line_info, handle_listed,
  handle_split, handle_pr_review,
}

abbrev pub admits : Text → Text → Bool
admits user entry = text_eq entry (text "*") || text_eq entry user

is_user_allowed-allow :
    (us : List Text) (a : Access) (user : Text)
    → is_user_allowed (allow us a) user ≡ is_user_allowed a user || any (admits user) us
unfolding is_user_allowed allow any
is_user_allowed-allow [] a user = ground arith
is_user_allowed-allow (u ∷ us) a user =
    ground (arith, is_user_allowed-allow us (record a { allowed_users = u ∷ a.allowed_users }) user)

-- A user may trigger the bot just if the configured list has the user or "*"; nobody, if it is empty.
pub is_user_allowed-new_access :
    (bot : Text) (users : List Text) (user : Text)
    → is_user_allowed (new_access bot users) user ≡ any (admits user) users
unfolding new_access is_user_allowed any
is_user_allowed-new_access bot users user =
    is_user_allowed-allow users
      (record { bot_username = bot; allowed_users = []; allow_all = false }) user

-- A user of the configured list, or "*" is on it.
abbrev pub IsAdmitted : Access → Text → Type 0
IsAdmitted a user = (a.allow_all ≡ true) ⊎ In user a.allowed_users

-- The name of the bot, or that with "[bot]".
abbrev pub IsBot : Access → Text → Type 0
IsBot a login = (login ≡ a.bot_username) ⊎ (login ≡ a.bot_username ++ text "[bot]")

-- "@" and the name of the bot.
abbrev pub IsMentioned : Access → Text → Type 0
IsMentioned a body = Has body (text "@" ++ a.bot_username)

-- The bot is mentioned, or the comment is on a pull request of the bot.
abbrev pub IsAddressed : Access → IssueComment → Type 0
IsAddressed a e = IsMentioned a e.body ⊎ (e.is_pr ≡ true) × IsBot a e.issue_user

any-listed : (user : Text) (us : List Text) → (any (λ u. text_eq u user) us ≡ true) ↔ In user us
any-listed user us = (
  λ h.
      let (u, listed, same) = any-In (λ u. text_eq u user) us h in
      subst (λ x. In x us) ((text_eq_iff u user).0 same) listed,
  λ h. In-any (λ u. text_eq u user) user us h (text_eq_refl user),
)

is_user_allowed_iff :
    (a : Access) (user : Text) → (is_user_allowed a user ≡ true) ↔ IsAdmitted a user
unfolding is_user_allowed
is_user_allowed_iff a user = ground (arith, any-listed user a.allowed_users)

is_bot_user_iff : (a : Access) (login : Text) → (is_bot_user a login ≡ true) ↔ IsBot a login
unfolding is_bot_user
is_bot_user_iff a login =
    ground
      (arith, text_eq_iff login a.bot_username, text_eq_iff login (a.bot_username ++ text "[bot]"))

is_addressed_iff : (a : Access) (e : IssueComment) → (is_addressed a e ≡ true) ↔ IsAddressed a e
is_addressed_iff a e =
    ground (arith, contains_iff e.body (text "@" ++ a.bot_username), is_bot_user_iff a e.issue_user)

denial-handed :
    (split : Option (Text × Text)) (num : ℤ) (events : List IncomingEvent)
    → denial split num ≢ handed events
denial-handed none num events e = cc
denial-handed (some (o, r)) num events e = cc

deny_unauthorized-handed :
    (repo : Text) (num : ℤ) (events : List IncomingEvent)
    → deny_unauthorized repo num ≢ handed events
unfolding deny_unauthorized
deny_unauthorized-handed repo num events = denial-handed (split_repo repo) num events

-- A comment on an issue is handed to the router just if it was created, mentions the bot or is on a
-- pull request of the bot, and is by a user who is not the bot and who is on the list of allowed
-- users, where "*" allows all; then its one event is handed.
pub handle_issue_comment_iff :
    (a : Access) (installation : ℤ) (e : IssueComment) (events : List IncomingEvent)
    → (handle_issue_comment a installation e ≡ handed events)
      ↔ (e.action ≡ text "created")
        × IsAddressed a e
        × ¬ (IsBot a e.user)
        × IsAdmitted a e.user
        × (issue_event a installation e ∷ [] ≡ events)
unfolding handle_issue_comment
handle_issue_comment_iff a installation e events = ground (
  arith,
  text_eq_iff e.action (text "created"),
  is_addressed_iff a e,
  is_bot_user_iff a e.user,
  is_user_allowed_iff a e.user,
  deny_unauthorized-handed e.repo e.issue_num events,
)

any-IsMentioned :
    (a : Access) (cs : List ReviewComment)
    → any (λ c. contains c.body (text "@" ++ a.bot_username)) cs ≡ true
    → (c : ReviewComment) × In c cs × IsMentioned a c.body
any-IsMentioned a cs h =
    let (c, listed, here) = any-In (λ c. contains c.body (text "@" ++ a.bot_username)) cs h in
    (c, listed, (contains_iff c.body (text "@" ++ a.bot_username)).0 here)

-- The bot is mentioned in the body or in a comment, or the pull request is the bot's.
abbrev pub IsAboutBot : Access → Review → List ReviewComment → Type 0
IsAboutBot a e comments =
    IsMentioned a e.body
    ⊎ IsBot a e.pr_user
    ⊎ ((c : ReviewComment) × In c comments × IsMentioned a c.body)

is_review_relevant-IsAboutBot :
    (a : Access) (e : Review) (comments : List ReviewComment)
    → is_review_relevant a e.body comments (is_bot_user a e.pr_user) ≡ true
    → IsAboutBot a e comments
unfolding is_review_relevant
is_review_relevant-IsAboutBot a e comments h =
    elim (Bool-cases (contains e.body (text "@" ++ a.bot_username))) [
      | inl here ↦ inl ((contains_iff e.body (text "@" ++ a.bot_username)).0 here)
      | inr other ↦ elim (Bool-cases (is_bot_user a e.pr_user)) [
        | inl own ↦ inr (inl ((is_bot_user_iff a e.pr_user).0 own))
        | inr others ↦ inr (inr (any-IsMentioned a comments (rw (other, others) at h)))
      ]
    ]

not_both_empty :
    (body : Text) (cs : List ReviewComment)
    → is_empty body && is_nil cs ≡ false
    → (body ≢ []) ⊎ (cs ≢ [])
not_both_empty [] [] h = absurd (cc h)
not_both_empty (c ∷ body) cs h = inl (λ e. cc)
not_both_empty [] (c ∷ cs) h = inr (λ e. cc)

true_or_false : (b : Bool) → b ≡ false → b ≢ true
true_or_false b h k = cc

module _ (quote : Text → Text) (a : Access) (installation : ℤ) (fetch : Fetch) (e : Review)
    (events : List IncomingEvent) where
  -- What is known of a review whose batch was handed over, once its comments were listed.
  abbrev pub Relevant : List ReviewComment → Type 0
  Relevant comments =
      IsAdmitted a e.user
      × IsAboutBot a e comments
      × ((trim_space e.body ≢ []) ⊎ (comments ≢ []))
      × (build_review_events a installation e (resolve_reply_line_info fetch comments) ≡ events)

  handle_listed-handed :
      (comments : List ReviewComment)
      → handle_listed quote a installation fetch e comments ≡ handed events
      → Relevant comments
  unfolding handle_listed
  handle_listed-handed comments h =
      let guards : (is_user_allowed a e.user ≡ true)
          × (is_review_relevant a e.body comments (is_bot_user a e.pr_user) ≡ true)
          × (is_empty (trim_space e.body) && is_nil comments ≡ false)
          × (build_review_events a installation e (resolve_reply_line_info fetch comments)
              ≡ events) =
        ground (arith, deny_unauthorized-handed e.repo e.pr_num events) in
      let (allowed, relevant, full, same) = guards in
      (
        (is_user_allowed_iff a e.user).0 allowed,
        is_review_relevant-IsAboutBot a e comments relevant,
        not_both_empty (trim_space e.body) comments full,
        same,
      )

  handle_split-handed :
      (split : Option (Text × Text)) (listed : Result (List ReviewComment))
      → handle_split quote a installation fetch e split listed ≡ handed events
      → (comments : List ReviewComment) × (listed ≡ ok comments) × Relevant comments
  handle_split-handed none listed h = absurd (cc h)
  handle_split-handed (some split) (err x) h = absurd (cc h)
  handle_split-handed (some split) (ok comments) h =
      (comments, refl, handle_listed-handed comments h)

  -- A review is handed to the router only if it was submitted, is by a user who is not the bot and who
  -- is on the list of allowed users, where "*" allows all, mentions the bot in its body or in a
  -- comment or is of a pull request of the bot, and is not empty; then its events are handed.
  pub handle_pr_review-handed :
      (listed : Result (List ReviewComment))
      → handle_pr_review quote a installation fetch e listed ≡ handed events
      → (e.action ≡ text "submitted")
        × ¬ (IsBot a e.user)
        × ((comments : List ReviewComment) × (listed ≡ ok comments) × Relevant comments)
  unfolding handle_pr_review
  handle_pr_review-handed listed h =
      let guards : (e.action ≡ text "submitted")
          × (is_bot_user a e.user ≡ false)
          × (handle_split quote a installation fetch e (split_repo e.repo) listed ≡ handed events) =
        ground (arith, text_eq_iff e.action (text "submitted")) in
      let (submitted, other, rest) = guards in
      (
        submitted,
        (λ own. true_or_false (is_bot_user a e.user) other ((is_bot_user_iff a e.user).1 own)),
        handle_split-handed (split_repo e.repo) listed rest,
      )
