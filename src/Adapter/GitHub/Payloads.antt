-- ===== src/Adapter/GitHub/Payloads.antt =====
-- Who is heard on GitHub, and what is read of the payloads of internal/adapter/github/github.go.
use ai_coworker.Prelude.{
  Bool, true, false, List, [], ◌∷◌, ◌++◌, ◌||◌, any, Text, text, text_eq, ℤ, if◌then◌else◌,
}

-- What of the `Adapter` decides who is heard.
pub record Access : Type 0 where
  pub bot_username : Text
  pub allowed_users : List Text
  pub allow_all : Bool

-- The loop of `New` over the configured users; "*" ends it.
unfoldable pub allow : List Text → Access → Access
unfolding text_eq
allow [] a = a
allow (u ∷ us) a =
    let later = allow us (record a { allowed_users = u ∷ a.allowed_users }) in
    if text_eq u (text "*") then record a { allow_all = true } else later

unfoldable pub new_access : Text → List Text → Access
unfolding allow
new_access bot users =
    allow users (record { bot_username = bot; allowed_users = []; allow_all = false })

unfoldable pub is_user_allowed : Access → Text → Bool
unfolding any text_eq
is_user_allowed a user = if a.allow_all then true else any (λ u. text_eq u user) a.allowed_users

unfoldable pub is_bot_user : Access → Text → Bool
is_bot_user a login = text_eq login a.bot_username || text_eq login (a.bot_username ++ text "[bot]")

abbrev pub mention : Access → Text
mention a = text "@" ++ a.bot_username

-- `gh.IssueCommentEvent`, as far as it is read.
pub record IssueComment : Type 0 where
  pub action : Text
  pub body : Text
  pub comment_id : ℤ
  pub user : Text
  pub repo : Text
  pub issue_num : ℤ
  pub issue_user : Text
  pub is_pr : Bool

-- `gh.PullRequestComment`, as far as it is read; the numbers that are nil read as 0.
pub record ReviewComment : Type 0 where
  pub id : ℤ
  pub body : Text
  pub path : Text
  pub line : ℤ
  pub start_line : ℤ
  pub in_reply_to : ℤ

-- `gh.PullRequestReviewEvent`, as far as it is read.
pub record Review : Type 0 where
  pub action : Text
  pub id : ℤ
  pub body : Text
  pub state : Text
  pub user : Text
  pub repo : Text
  pub pr_num : ℤ
  pub pr_user : Text
  pub branch : Text
