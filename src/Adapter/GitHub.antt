-- ===== src/Adapter/GitHub.antt =====
-- The GitHub adapter, internal/adapter/github/github.go: from a webhook to the events of the router.
pub mod Payloads
pub mod Ref
pub mod Repo
pub mod Allowed
pub mod Batches
pub mod Respond
pub mod Webhook
use ai_coworker.Prelude.{
  ℕ, suc, Bool, true, false, not, Option, none, some, List, [], ◌∷◌, ◌++◌, ◌&&◌, ◌||◌, any, map,
  Text, Dict, text, text_eq, String, insert, is_empty, trim_space, ℤ, itoa, if◌then◌else◌,
}
use ai_coworker.Domain.{ChannelRef, IncomingEvent}
use ai_coworker.Store.{Error, fault, wrap, Result, ok, err}
use ai_coworker.Config.{is_zero}
use ai_coworker.Engine.Reply.{same_int}
use ai_coworker.Adapter.Mention.{contains, remove_all}
use ai_coworker.Adapter.GitHub.Ref.{new_ref, with_comment}
use ai_coworker.Adapter.GitHub.Repo.{split_repo}
pub use ai_coworker.Adapter.GitHub.Payloads.{Access, mention, IssueComment, ReviewComment, Review}
unfoldable pub use ai_coworker.Adapter.GitHub.Payloads.{
  allow, new_access, is_user_allowed, is_bot_user,
}

-- What a handler does: nothing, a denial on the issue, a batch for the router, or an error.
pub data Outcome : Type 0 where
  ignored : Outcome
  denied : Text → Text → ℤ → Outcome
  handed : List IncomingEvent → Outcome
  failed : Error → Outcome

-- `denyUnauthorized`: the comment on the issue, unless the name of the repository is malformed.
abbrev pub denial : Option (Text × Text) → ℤ → Outcome
denial none num = ignored
denial (some (owner, name)) num = denied owner name num

unfoldable pub deny_unauthorized : Text → ℤ → Outcome
deny_unauthorized repo num = denial (split_repo repo) num

abbrev pub bool_text : Bool → Text
bool_text b = if b then text "true" else text "false"

abbrev pub thread_name : Text → ℤ → Text
thread_name repo num = text "github-" ++ (repo ++ (text "-" ++ itoa num))

-- The text without the mention.
unfoldable pub cleaned : Access → Text → Text
cleaned a body = trim_space (remove_all (mention a) body)

unfoldable pub issue_event : Access → ℤ → IssueComment → IncomingEvent
issue_event a installation e = record {
  channel_ref = with_comment (new_ref e.repo e.issue_num) e.comment_id (text "issue_comment");
  thread_id = thread_name e.repo e.issue_num;
  user_id = e.user;
  content = cleaned a e.body;
  metadata = some (
      ("vcs", text "github")
      ∷ ("type", text "issue_comment")
      ∷ ("repo", e.repo)
      ∷ ("issue_num", itoa e.issue_num)
      ∷ ("is_pr", bool_text e.is_pr)
      ∷ ("installation_id", itoa installation)
      ∷ []);
}

-- The comment is for the bot: it is mentioned, or the pull request is its own.
abbrev pub is_addressed : Access → IssueComment → Bool
is_addressed a e = contains e.body (mention a) || e.is_pr && is_bot_user a e.issue_user

unfoldable pub handle_issue_comment : Access → ℤ → IssueComment → Outcome
handle_issue_comment a installation e =
    if not (text_eq e.action (text "created"))
    then ignored
    else if not (is_addressed a e)
    then ignored
    else if is_bot_user a e.user
    then ignored
    else if not (is_user_allowed a e.user)
    then deny_unauthorized e.repo e.issue_num
    else handed (issue_event a installation e ∷ [])

unfoldable pub is_review_relevant : Access → Text → List ReviewComment → Bool → Bool
is_review_relevant a body comments is_bot_pr =
    if contains body (mention a)
    then true
    else if is_bot_pr
    then true
    else any (λ c. contains c.body (mention a)) comments

abbrev pub insert_line : String → ℤ → Dict → Dict
insert_line key n m = if is_zero n then m else insert key (itoa n) m

-- What the events of one review share.
abbrev pub review_event : Review → ChannelRef → Text → Dict → IncomingEvent
review_event e ref content meta = record {
  channel_ref = ref;
  thread_id = thread_name e.repo e.pr_num;
  user_id = e.user;
  content = content;
  metadata = some meta;
}

unfoldable pub body_event : Access → ℤ → Review → IncomingEvent
body_event a installation e = review_event e (new_ref e.repo e.pr_num) (cleaned a e.body) (
    ("vcs", text "github")
    ∷ ("type", text "review")
    ∷ ("repo", e.repo)
    ∷ ("issue_num", itoa e.pr_num)
    ∷ ("is_pr", text "true")
    ∷ ("pr_branch", e.branch)
    ∷ ("review_state", e.state)
    ∷ ("review_id", itoa e.id)
    ∷ ("installation_id", itoa installation)
    ∷ [])

unfoldable pub comment_meta : ℤ → Review → ReviewComment → Dict
unfolding insert
comment_meta installation e c = insert_line "start_line" c.start_line (
    insert_line "line" c.line (
      ("vcs", text "github")
      ∷ ("type", text "review_comment")
      ∷ ("repo", e.repo)
      ∷ ("issue_num", itoa e.pr_num)
      ∷ ("is_pr", text "true")
      ∷ ("pr_branch", e.branch)
      ∷ ("path", c.path)
      ∷ ("comment_id", itoa c.id)
      ∷ ("review_id", itoa e.id)
      ∷ ("installation_id", itoa installation)
      ∷ []))

unfoldable pub comment_event : Access → ℤ → Review → ReviewComment → IncomingEvent
comment_event a installation e c =
    review_event e (with_comment (new_ref e.repo e.pr_num) c.id (text "review_comment"))
      (cleaned a c.body) (comment_meta installation e c)

-- An event for the body, unless it is blank, then one for each comment.
unfoldable pub build_review_events : Access → ℤ → Review → List ReviewComment → List IncomingEvent
build_review_events a installation e comments =
    let rest = map (comment_event a installation e) comments in
    if is_empty (trim_space e.body) then rest else body_event a installation e ∷ rest

abbrev pub is_nil {ℓ} : {A : Type ℓ} → List A → Bool
is_nil [] = true
is_nil (_ ∷ _) = false

-- What is fetched of a parent comment: its line and its start line.
abbrev pub Lines : Type 0
Lines = ℤ × ℤ

unfoldable pub find_parent : ℤ → List (ℤ × Lines) → Option Lines
unfolding same_int
find_parent id [] = none
find_parent id ((j, p) ∷ cache) = if same_int j id then some p else find_parent id cache

abbrev pub with_lines : ReviewComment → Lines → ReviewComment
with_lines c (line, start) = record c { line = line; start_line = start }

-- A reply without a line.
abbrev pub needs_lines : ReviewComment → Bool
needs_lines c = not (is_zero c.in_reply_to || not (is_zero c.line))

abbrev pub Fetch : Type 0
Fetch = ℕ → ℤ → Option Lines

-- One comment, by what the cache and the service have of its parent: the comment, how many calls
-- were made by then, and the cache.
unfoldable pub resolve_one :
    Fetch → ℕ → List (ℤ × Lines) → ReviewComment → ReviewComment × (ℕ × List (ℤ × Lines))
unfolding find_parent
resolve_one fetch n cache c =
    if not (needs_lines c) then (c, (n, cache)) else elim (find_parent c.in_reply_to cache) [
      | some p ↦ (with_lines c p, (n, cache))
      | none ↦ elim (fetch n c.in_reply_to) [
        | none ↦ (c, (suc n, cache))
        | some p ↦ (with_lines c p, (suc n, (c.in_reply_to, p) ∷ cache))
      ]
    ]

unfoldable pub resolve_from : Fetch → ℕ → List (ℤ × Lines) → List ReviewComment → List ReviewComment
resolve_from fetch n cache [] = []
resolve_from fetch n cache (c ∷ cs) =
    let (c', (m, cache')) = resolve_one fetch n cache c in c' ∷ resolve_from fetch m cache' cs

-- `resolveReplyLineInfo`; `fetch` is `PullRequests.GetComment` by the number of the call.
unfoldable pub resolve_reply_line_info : Fetch → List ReviewComment → List ReviewComment
resolve_reply_line_info fetch cs = resolve_from fetch 0 [] cs

module _ (quote : Text → Text) (a : Access) (installation : ℤ) (fetch : Fetch) where
  abbrev pub bad_repo : Text → Error
  bad_repo repo =
      fault (text "invalid repo format " ++ (quote repo ++ text ": expected owner/repo"))

  -- The part of `handlePRReview` that follows the listing of the comments; `quote` is the
  -- verb %q of fmt.
  unfoldable pub handle_listed : Review → List ReviewComment → Outcome
  handle_listed e comments =
      if is_empty (trim_space e.body) && is_nil comments
      then ignored
      else if not (is_review_relevant a e.body comments (is_bot_user a e.pr_user))
      then ignored
      else if not (is_user_allowed a e.user)
      then deny_unauthorized e.repo e.pr_num
      else handed (build_review_events a installation e (resolve_reply_line_info fetch comments))

  -- What is done with the comments that were listed for a repository.
  abbrev pub handle_split : Review → Option (Text × Text) → Result (List ReviewComment) → Outcome
  handle_split e none listed = failed (bad_repo e.repo)
  handle_split e (some split) (err x) = failed (wrap (text "listing review comments") x)
  handle_split e (some split) (ok comments) = handle_listed e comments

  -- `listed` is what the pages of `ListReviewComments` amount to.
  unfoldable pub handle_pr_review : Review → Result (List ReviewComment) → Outcome
  handle_pr_review e listed =
      if not (text_eq e.action (text "submitted"))
      then ignored
      else if is_bot_user a e.user
      then ignored
      else handle_split e (split_repo e.repo) listed
