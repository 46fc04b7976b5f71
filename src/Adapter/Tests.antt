-- ===== src/Adapter/Tests.antt =====
-- The adapters on small events.
use ai_coworker.Prelude.{
  Dict, itoa, insert, lookup, ◌++◌, ◌≡◌, ◌↔◌, refl, false, Option, none, some, List, [], ◌∷◌, any,
  map, All, Text, text, text_eq, trim_space, trim_left, trim_right, is_space, strip_prefix, ℤ,
  arith,
}
use ai_coworker.Store.{Result, ok}
use ai_coworker.Engine.Router.{mixed}
use ai_coworker.Engine.Tests.{provider, world, thread, channel}
use ai_coworker.Engine.World.{responded}
use ai_coworker.Engine.Worker.Respond.{route_response}
use ai_coworker.Store.Tests.{running}
use ai_coworker.Domain.{ChannelRef, Task, Thread}
use ai_coworker.Adapter.Mention.{contains}
use ai_coworker.Adapter.GitHub.Ref.{new_ref, with_comment}
use ai_coworker.Adapter.GitHub.{
  comment_meta, Access, new_access, allow, is_user_allowed, is_bot_user, IssueComment,
  ReviewComment, Review, handed, issue_event, handle_issue_comment, is_review_relevant,
  build_review_events, Fetch, Lines, resolve_reply_line_info, handle_listed, handle_pr_review,
  body_event, comment_event,
}
use ai_coworker.Adapter.GitHub.Repo.{split_repo}
use ai_coworker.Adapter.GitHub.Allowed.{
  IsAddressed, IsBot, IsAdmitted, handle_issue_comment_iff, Relevant, handle_pr_review-handed,
}
use ai_coworker.Adapter.GitHub.Batches.{
  mixed-build_review_events, IsReview, classify-build_review_events, resolved,
  resolve_reply_line_info-map,
}
use ai_coworker.Adapter.GitHub.Respond.{Api, posted, send_response, send_response-route_response}
use ai_coworker.Vcs.GitHub.{
  GitHubProvider, track_installation, get_installation_id, find_installation, discover_installation,
}

abbrev access : Access
access = new_access (text "bot") (text "ann" ∷ [])

abbrev comment : IssueComment
comment = record {
  action = text "created";
  body = text "@bot hi";
  comment_id = ℤ.pos 5;
  user = text "ann";
  repo = text "o/r";
  issue_num = ℤ.pos 1;
  issue_user = text "ann";
  is_pr = false;
}

abbrev reply : ReviewComment
reply = record {
  id = ℤ.pos 8;
  body = text "why";
  path = text "a.go";
  line = ℤ.pos 0;
  start_line = ℤ.pos 0;
  in_reply_to = ℤ.pos 7;
}

abbrev review : Review
review = record {
  action = text "submitted";
  id = ℤ.pos 3;
  body = text "@bot fix";
  state = text "commented";
  user = text "ann";
  repo = text "o/r";
  pr_num = ℤ.pos 1;
  pr_user = text "ann";
  branch = text "main";
}

abbrev fetch : Fetch
fetch n id = some (ℤ.pos 4, ℤ.pos 2)

abbrev quote : Text → Text
quote t = t

handle_issue_comment_iff_example :
    (handle_issue_comment access (ℤ.pos 9) comment
      ≡ handed (issue_event access (ℤ.pos 9) comment ∷ []))
    ↔ (comment.action ≡ text "created")
      × IsAddressed access comment
      × ¬ (IsBot access comment.user)
      × IsAdmitted access comment.user
      × (issue_event access (ℤ.pos 9) comment ∷ [] ≡ issue_event access (ℤ.pos 9) comment ∷ [])
handle_issue_comment_iff_example =
    handle_issue_comment_iff access (ℤ.pos 9) comment (issue_event access (ℤ.pos 9) comment ∷ [])

review_run :
    handle_pr_review quote access (ℤ.pos 9) fetch review (ok (reply ∷ []))
    ≡ handed
        (build_review_events access (ℤ.pos 9) review (resolve_reply_line_info fetch (reply ∷ [])))
unfolding handle_pr_review handle_listed text_eq split_repo is_bot_user is_user_allowed new_access
    allow is_review_relevant contains strip_prefix trim_space trim_left trim_right is_space any
review_run = refl

handle_pr_review-handed_example :
    (review.action ≡ text "submitted")
    × ¬ (IsBot access review.user)
    × ((comments : List ReviewComment) × (◌≡◌ {A = Result (List ReviewComment)}
          (ok (reply ∷ []))
          (ok comments))
        × Relevant quote access
            (ℤ.pos 9)
            fetch
            review
            (build_review_events access
              (ℤ.pos 9)
              review
              (resolve_reply_line_info fetch (reply ∷ [])))
            comments)
handle_pr_review-handed_example =
    handle_pr_review-handed quote access (ℤ.pos 9) fetch review
      (build_review_events access (ℤ.pos 9) review (resolve_reply_line_info fetch (reply ∷ [])))
      (ok (reply ∷ [])) review_run

review_batch :
    build_review_events access (ℤ.pos 9) review (reply ∷ [])
    ≡ body_event access (ℤ.pos 9) review ∷ comment_event access (ℤ.pos 9) review reply ∷ []
unfolding build_review_events trim_space trim_left trim_right is_space
review_batch = refl

mixed-build_review_events_example :
    mixed
      (body_event access (ℤ.pos 9) review).channel_ref
      1
      (comment_event access (ℤ.pos 9) review reply ∷ [])
    ≡ none
mixed-build_review_events_example =
    mixed-build_review_events access (ℤ.pos 9) review (reply ∷ [])
      (body_event access (ℤ.pos 9) review) (comment_event access (ℤ.pos 9) review reply ∷ [])
      review_batch

classify-build_review_events_example :
    All
      (IsReview access (ℤ.pos 9) review (λ c. c) provider [] world)
      (build_review_events access (ℤ.pos 9) review (reply ∷ []))
classify-build_review_events_example =
    classify-build_review_events access (ℤ.pos 9) review (λ c. c) provider [] world (reply ∷ [])

abbrev parents : ℤ → Option Lines
parents id = some (ℤ.pos 4, ℤ.pos 2)

resolve_reply_line_info-map_example :
    resolve_reply_line_info fetch (reply ∷ [])
    ≡ map (resolved fetch parents (λ n id. refl)) (reply ∷ [])
resolve_reply_line_info-map_example =
    resolve_reply_line_info-map fetch parents (λ n id. refl) (reply ∷ [])

abbrev api : Api
api = record {
  reply_to_review = λ installation owner repo num message id. ok tt;
  create_comment = λ installation owner repo num message. ok tt;
  react_to_review = λ installation owner repo id content. ok tt;
  react_to_issue = λ installation owner repo id content. ok tt;
}

abbrev hub : GitHubProvider
hub = record { web_host = text "github.com"; repo_installations = [] }

abbrev find : Text → Text → Result ℤ
find owner repo = ok (ℤ.pos 9)

splits : split_repo (text "o/r") ≡ some (text "o", text "r")
unfolding split_repo
splits = refl

found :
    get_installation_id quote find (text "o/r") hub
    ≡ (ok (ℤ.pos 9), track_installation (text "o/r") (ℤ.pos 9) hub)
unfolding get_installation_id find_installation discover_installation split_repo
found = refl

-- The thread was opened by another comment.
abbrev commented : Thread
commented = record thread {
  channel_ref = with_comment (new_ref (text "o/r") (ℤ.pos 1)) (ℤ.pos 7) (text "review_comment");
}

abbrev kept : Dict
kept =
    ("repo", text "o/r")
    ∷ ("issue_num", itoa (ℤ.pos 1))
    ∷ ("comment_id", itoa (ℤ.pos 7))
    ∷ ("comment_type", text "review_comment")
    ∷ []

kept-properties : commented.channel_ref.properties ≡ some kept
unfolding with_comment new_ref insert
kept-properties = refl

kept-lookup :
    (lookup "repo" kept ≡ some (text "o/r")) × (lookup "issue_num" kept ≡ some (itoa (ℤ.pos 1)))
unfolding lookup
kept-lookup = (refl, refl)

abbrev task : Task
task = record running { metadata = some (comment_meta (ℤ.pos 9) review reply) }

send_response-route_response_example :
    (ref : ChannelRef) × (((route_response
          (λ name. some channel)
          commented
          task
          (text "Done.")
          world).1
        ).outputs
      ≡ world.outputs ++ responded ref (text "Done.") ∷ [])
    × (send_response quote find api ref (text "Done.") hub ≡ (
      posted
          (text "failed to reply to review comment")
          (api.reply_to_review (ℤ.pos 9) (text "o") (text "r") (ℤ.pos 1) (text "Done.") (ℤ.pos 8)),
      track_installation (text "o/r") (ℤ.pos 9) hub,
    ))
send_response-route_response_example =
    send_response-route_response quote find api hub (track_installation (text "o/r") (ℤ.pos 9) hub)
      (λ name. some channel) channel commented task world kept (ℤ.pos 9) (ℤ.pos 9) review reply
      (text "o") (text "r") (text "Done.") refl kept-properties kept-lookup.0 kept-lookup.1 refl
      (ground arith) (ground arith) refl splits found
