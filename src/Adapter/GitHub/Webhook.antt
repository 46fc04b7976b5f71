-- ===== src/Adapter/GitHub/Webhook.antt =====
-- The webhook of internal/adapter/github/github.go: its status, and the pages of a review's comments.
use ai_coworker.Prelude.{ℕ, zero, suc, ◌≡◌, refl, List, [], ◌∷◌, ◌++◌, Text, Option, some, none, ℤ}
use ai_coworker.Domain.{IncomingEvent}
use ai_coworker.Store.{Result, ok, err}
use ai_coworker.Vcs.GitHub.{GitHubProvider, track_installation}
use ai_coworker.Adapter.GitHub.{
  Access, IssueComment, ReviewComment, Review, Outcome, handle_issue_comment, handle_pr_review,
  Fetch,
}

-- A page of comments, and whether there is a next one.
pub data Page : Type 0 where
  last_page : List ReviewComment → Page
  more : List ReviewComment → Page

abbrev pub and_then :
    Result Page → Option (Result (List ReviewComment)) → Option (Result (List ReviewComment))
and_then (err e) rest = some (err e)
and_then (ok (Page.last_page cs)) rest = some (ok cs)
and_then (ok (Page.more cs)) none = none
and_then (ok (Page.more cs)) (some (ok ds)) = some (ok (cs ++ ds))
and_then (ok (Page.more cs)) (some (err e)) = some (err e)

-- The loop over `ListReviewComments`, which has no bound: `none` where it has not ended after `fuel`
-- pages. The service answers by the number of the call.
unfoldable pub list_review_comments :
    ℕ → ℕ → (ℕ → Result Page) → Option (Result (List ReviewComment))
list_review_comments zero n page = none
list_review_comments (suc fuel) n page = and_then (page n) (list_review_comments fuel (suc n) page)

-- A payload that is valid and parsed, with its installation.
pub data Event : Type 0 where
  issue_comment : Text → ℤ → IssueComment → Event
  review_comment : Event
  review : Text → ℤ → Review → Result (List ReviewComment) → Event
  unhandled : Event

abbrev pub status_of : Result (Unit {0}) → ℕ
status_of (ok _) = 200
status_of (err e) = 500

-- `handler` is the router's; the error of a denial is only logged.
module _ (quote : Text → Text) (a : Access) (fetch : Fetch)
    (handler : List IncomingEvent → Result (Unit {0})) where
  abbrev pub carried_out : Outcome → Result (Unit {0})
  carried_out Outcome.ignored = ok tt
  carried_out (Outcome.denied owner repo num) = ok tt
  carried_out (Outcome.handed es) = handler es
  carried_out (Outcome.failed e) = err e

  unfoldable pub handle_event : Event → GitHubProvider → ℕ × GitHubProvider
  unfolding handle_issue_comment handle_pr_review track_installation
  handle_event (issue_comment repo installation e) p = (
    status_of (carried_out (handle_issue_comment a installation e)),
    track_installation repo installation p,
  )
  handle_event review_comment p = (200, p)
  handle_event (review repo installation e listed) p = (
    status_of (carried_out (handle_pr_review quote a installation fetch e listed)),
    track_installation repo installation p,
  )
  handle_event unhandled p = (200, p)

  -- `payload` is what `ValidatePayload` and `ParseWebHook` make of the request.
  unfoldable pub handle_webhook : Option (Option Event) → GitHubProvider → ℕ × GitHubProvider
  unfolding handle_event
  handle_webhook none p = (401, p)
  handle_webhook (some none) p = (400, p)
  handle_webhook (some (some e)) p = handle_event e p

-- The pages of a review: each but the last names a next one.
abbrev pub Serves : (ℕ → Result Page) → ℕ → List (List ReviewComment) → List ReviewComment → Type 0
Serves page n [] final = page n ≡ ok (Page.last_page final)
Serves page n (cs ∷ ps) final = (page n ≡ ok (Page.more cs)) × Serves page (suc n) ps final

abbrev pub joined : List (List ReviewComment) → List ReviewComment → List ReviewComment
joined [] final = final
joined (cs ∷ ps) final = cs ++ joined ps final

abbrev pub pages : List (List ReviewComment) → ℕ
pages [] = 1
pages (cs ∷ ps) = suc (pages ps)

-- With as much fuel as there are pages the loop ends, and it lists all comments in their order.
pub list_review_comments-Serves :
    (page : ℕ → Result Page) (n : ℕ) (ps : List (List ReviewComment)) (final : List ReviewComment)
    → Serves page n ps final
    → list_review_comments (pages ps) n page ≡ some (ok (joined ps final))
unfolding list_review_comments
list_review_comments-Serves page n [] final served = rw served refl
list_review_comments-Serves page n (cs ∷ ps) final (here, served) =
    rw (here, list_review_comments-Serves page (suc n) ps final served) refl
