-- ===== src/Adapter/GitHub/Respond.antt =====
-- The responses and acknowledgements of internal/adapter/github/github.go.
use ai_coworker.Prelude.{
  ◌++◌, ◌≡◌, refl, ap, ◌∙◌, true, false, not, Option, none, some, [], ◌∷◌, ◌&&◌, Text, String, Dict,
  text, text_eq, text_eq_refl, get, lookup, insert, lookup-insert, ℤ, itoa, FitsInt, atoi-itoa,
  if◌then◌else◌, Bool-cases, inl, inr,
}
use package.text.Mathlib.Text.{◌==◌ as str_eq}
use ai_coworker.Domain.{ChannelRef, Task, Thread}
use ai_coworker.Store.{wrap, Result, ok, err}
use ai_coworker.Config.{is_zero}
use ai_coworker.Engine.Intent.{entries}
use ai_coworker.Engine.Router.{Adapter}
use ai_coworker.Engine.World.{World, responded, ◌>>=◌}
use ai_coworker.Engine.Worker.Respond as route
use ai_coworker.Engine.Worker.Respond.{enriched, route_response, respond_by}
use ai_coworker.Vcs.GitHub.{malformed, GitHubProvider, get_installation_id}
use ai_coworker.Adapter.GitHub.{Access, Review, ReviewComment, comment_meta, insert_line}
use ai_coworker.Adapter.GitHub.Batches.{comment_meta-type}
use ai_coworker.Adapter.GitHub.Repo.{split_repo}
use ai_coworker.Adapter.GitHub.Ref.{GitHubRef, parse_ref}

-- What the service answers to the calls that write, by the installation, the owner and the repository.
pub record Api : Type 0 where
  pub reply_to_review : ℤ → Text → Text → ℤ → Text → ℤ → Result (Unit {0})
  pub create_comment : ℤ → Text → Text → ℤ → Text → Result (Unit {0})
  pub react_to_review : ℤ → Text → Text → ℤ → Text → Result (Unit {0})
  pub react_to_issue : ℤ → Text → Text → ℤ → Text → Result (Unit {0})

abbrev pub posted : Text → Result (Unit {0}) → Result (Unit {0})
posted what (ok _) = ok tt
posted what (err e) = err (wrap what e)

-- A comment of a review is answered in its thread, all else on the issue.
unfoldable pub post_message : Api → GitHubRef → Text → Text → Text → ℤ → Result (Unit {0})
unfolding text_eq
post_message api g message owner repo installation =
    if text_eq g.comment_type (text "review_comment") && not (is_zero g.comment_id)
    then posted (text "failed to reply to review comment")
        (api.reply_to_review installation owner repo g.issue_num message g.comment_id)
    else posted (text "failed to create issue comment")
        (api.create_comment installation owner repo g.issue_num message)

unfoldable pub post_reaction : Api → GitHubRef → Text → Text → ℤ → Result (Unit {0})
unfolding text_eq
post_reaction api g owner repo installation = posted (text "failed to create reaction") (
    if text_eq g.comment_type (text "review_comment")
    then api.react_to_review installation owner repo g.comment_id (text "eyes")
    else api.react_to_issue installation owner repo g.comment_id (text "eyes"))

-- `quote` is the verb %q of fmt, `find` the service's search for an installation.
module _ (quote : Text → Text) (find : Text → Text → Result ℤ) (api : Api) where
  abbrev pub with_client :
      Result ℤ × GitHubProvider → (ℤ → Result (Unit {0})) → Result (Unit {0}) × GitHubProvider
  with_client (err e, p) act = (err e, p)
  with_client (ok installation, p) act = (act installation, p)

  abbrev pub in_repo :
      Text
      → Option (Text × Text)
      → (Text → Text → ℤ → Result (Unit {0}))
      → GitHubProvider
      → Result (Unit {0}) × GitHubProvider
  in_repo full none act p = (err (malformed quote full), p)
  in_repo full (some (owner, repo)) act p =
      with_client (get_installation_id quote find full p) (act owner repo)

  unfoldable pub send_response :
      ChannelRef → Text → GitHubProvider → Result (Unit {0}) × GitHubProvider
  unfolding parse_ref split_repo get_installation_id post_message
  send_response ref message p =
      let g = parse_ref ref in in_repo g.repo (split_repo g.repo) (post_message api g message) p

  unfoldable pub acknowledge : ChannelRef → GitHubProvider → Result (Unit {0}) × GitHubProvider
  unfolding parse_ref split_repo get_installation_id post_reaction
  acknowledge ref p =
      let g = parse_ref ref in
      if is_zero g.comment_id
      then (ok tt, p)
      else in_repo g.repo (split_repo g.repo) (post_reaction api g) p

lookup-comment_id :
    (key : String) (n : ℤ) (m : Dict)
    → str_eq key "comment_id" ≡ false
    → lookup "comment_id" (insert_line key n m) ≡ lookup "comment_id" m
lookup-comment_id key n m other = elim (Bool-cases (is_zero n)) [
  | inl none_set ↦ rw none_set refl
  | inr set ↦ rw (set, lookup-insert key "comment_id" (itoa n) m, other) refl
]

comment_meta-comment_id :
    (installation : ℤ) (e : Review) (c : ReviewComment)
    → lookup "comment_id" (comment_meta installation e c) ≡ some (itoa c.id)
unfolding comment_meta lookup
comment_meta-comment_id installation e c =
    lookup-comment_id "start_line" c.start_line _ refl ∙ lookup-comment_id "line" c.line _ refl

enriched_lem :
    (get_adapter : Text → Option Adapter) (props meta : Dict) (id type : Text)
    → lookup "comment_id" meta ≡ some id
    → lookup "type" meta ≡ some type
    → enriched get_adapter props (some meta)
      ≡ insert "comment_id" id (insert "comment_type" type props)
unfolding enriched
enriched_lem get_adapter props meta id type has_id has_type = rw (has_id, has_type) refl

abbrev anyone : Access
anyone = record { bot_username = []; allowed_users = []; allow_all = false }

get-lookup : (key : String) (m : Dict) (v : Text) → lookup key m ≡ some v → get key m ≡ v
unfolding get
get-lookup key m v h = rw (get, h) refl

-- What is read of a reference, by its properties.
parse_ref-lookup :
    (ref : ChannelRef) (m : Dict) (repo type : Text) (num id : ℤ)
    → FitsInt num
    → FitsInt id
    → ref.properties ≡ some m
    → lookup "repo" m ≡ some repo
    → lookup "issue_num" m ≡ some (itoa num)
    → lookup "comment_id" m ≡ some (itoa id)
    → lookup "comment_type" m ≡ some type
    → parse_ref ref ≡ record { repo = repo; issue_num = num; comment_id = id; comment_type = type }
unfolding parse_ref
parse_ref-lookup ref m repo type num id fits_num fits_id has_map has_repo has_num has_id has_type =
    rw
      (
        has_map,
        get-lookup "repo" m repo has_repo,
        get-lookup "issue_num" m (itoa num) has_num,
        get-lookup "comment_id" m (itoa id) has_id,
        get-lookup "comment_type" m type has_type,
        atoi-itoa num fits_num,
        atoi-itoa id fits_id,
      )
      refl

-- The properties of a response to the task of a review comment.
abbrev response_properties : Dict → Text → Dict
response_properties props id =
    insert "comment_id" id (insert "comment_type" (text "review_comment") props)

lookup-response_properties :
    (props : Dict) (id : Text) (key : String) (v : Text)
    → str_eq "comment_id" key ≡ false
    → str_eq "comment_type" key ≡ false
    → lookup key props ≡ some v
    → lookup key (response_properties props id) ≡ some v
lookup-response_properties props id key v other third h =
    lookup-insert "comment_id" key id (insert "comment_type" (text "review_comment") props)
    ∙ rw other (lookup-insert "comment_type" key (text "review_comment") props ∙ rw third h)

-- What is read of the reference of a response.
parse_ref-response :
    (ref : ChannelRef) (props : Dict) (e : Review) (c : ReviewComment)
    → FitsInt e.pr_num
    → FitsInt c.id
    → lookup "repo" props ≡ some e.repo
    → lookup "issue_num" props ≡ some (itoa e.pr_num)
    → parse_ref (record ref { properties = some (response_properties props (itoa c.id)) })
      ≡ record {
        repo = e.repo;
        issue_num = e.pr_num;
        comment_id = c.id;
        comment_type = text "review_comment";
      }
parse_ref-response ref props e c fits_num fits_id has_repo has_num =
    parse_ref-lookup (record ref { properties = some (response_properties props (itoa c.id)) })
      (response_properties props (itoa c.id)) e.repo (text "review_comment") e.pr_num c.id fits_num
      fits_id refl (lookup-response_properties props (itoa c.id) "repo" e.repo refl refl has_repo)
      (lookup-response_properties props (itoa c.id) "issue_num" (itoa e.pr_num) refl refl has_num)
      (lookup-insert "comment_id" "comment_id" (itoa c.id)
        (insert "comment_type" (text "review_comment") props))
      (lookup-insert "comment_id" "comment_type" (itoa c.id)
          (insert "comment_type" (text "review_comment") props)
        ∙ lookup-insert "comment_type" "comment_type" (text "review_comment") props)

-- What the router's response to a task emits.
route_response-outputs :
    (get_adapter : Text → Option Adapter) (a : Adapter) (thread : Thread) (t : Task)
    (message : Text) (w : World)
    → get_adapter thread.channel_ref.channel ≡ some a
    → ((route_response get_adapter thread t message w).1).outputs
      ≡ w.outputs
        ++ responded
            (record (thread.channel_ref) {
              properties =
                  some (enriched get_adapter (entries thread.channel_ref.properties) t.metadata);
            })
            message
          ∷ []
unfolding route_response route.send_response respond_by ◌>>=◌
route_response-outputs get_adapter a thread t message w known = rw known refl

send_response_lem :
    (quote : Text → Text) (find : Text → Text → Result ℤ) (api : Api) (p : GitHubProvider)
    (ref : ChannelRef) (message : Text) (g : GitHubRef)
    → parse_ref ref ≡ g
    → send_response quote find api ref message p
      ≡ in_repo quote find api g.repo (split_repo g.repo) (post_message api g message) p
unfolding send_response
send_response_lem quote find api p ref message g e =
    ap (λ h. in_repo quote find api h.repo (split_repo h.repo) (post_message api h message) p) e

-- A reply to a review comment that has a number.
post_message-review :
    (api : Api) (g : GitHubRef) (message owner repo : Text) (known : ℤ)
    → g.comment_type ≡ text "review_comment"
    → is_zero g.comment_id ≡ false
    → post_message api g message owner repo known
      ≡ posted
          (text "failed to reply to review comment")
          (api.reply_to_review known owner repo g.issue_num message g.comment_id)
unfolding post_message
post_message-review api g message owner repo known typed numbered =
    let same : text_eq g.comment_type (text "review_comment") ≡ true =
      rw typed (text_eq_refl (text "review_comment")) in
    rw (same, numbered) refl

-- The response that a worker routes for the task of a review comment is sent by a reference on which
-- the adapter replies to that very comment, by the installation of its repository. The thread
-- keeps the repository and the number of the pull request in its properties, and may keep another
-- comment's number and type there; the name of the repository splits, the numbers fit the machine and
-- the comment has a number.
pub send_response-route_response :
    (quote : Text → Text) (find : Text → Text → Result ℤ) (api : Api) (p p' : GitHubProvider)
    (get_adapter : Text → Option Adapter) (a : Adapter) (thread : Thread) (t : Task) (w : World)
    (props : Dict) (installation known : ℤ) (e : Review) (c : ReviewComment)
    (owner repo message : Text)
    → get_adapter thread.channel_ref.channel ≡ some a
    → thread.channel_ref.properties ≡ some props
    → lookup "repo" props ≡ some e.repo
    → lookup "issue_num" props ≡ some (itoa e.pr_num)
    → t.metadata ≡ some (comment_meta installation e c)
    → FitsInt e.pr_num
    → FitsInt c.id
    → is_zero c.id ≡ false
    → split_repo e.repo ≡ some (owner, repo)
    → get_installation_id quote find e.repo p ≡ (ok known, p')
    → (ref : ChannelRef) × (((route_response get_adapter thread t message w).1).outputs
        ≡ w.outputs ++ responded ref message ∷ [])
      × (send_response quote find api ref message p ≡ (
        posted
            (text "failed to reply to review comment")
            (api.reply_to_review known owner repo e.pr_num message c.id),
        p',
      ))
send_response-route_response quote find api p p' get_adapter a thread t w props installation known e
      c owner repo message adapter kept has_repo has_num meta fits_num fits_id numbered splits
      found =
    let g : GitHubRef = record {
      repo = e.repo;
      issue_num = e.pr_num;
      comment_id = c.id;
      comment_type = text "review_comment";
    } in
    let ref : ChannelRef = record (thread.channel_ref) {
      properties = some (response_properties props (itoa c.id));
    } in
    let same : enriched get_adapter (entries thread.channel_ref.properties) t.metadata
        ≡ response_properties props (itoa c.id) =
      rw (kept, meta)
        (enriched_lem get_adapter props (comment_meta installation e c) (itoa c.id)
          (text "review_comment") (comment_meta-comment_id installation e c)
          (comment_meta-type anyone installation e c)) in
    (
      ref,
      route_response-outputs get_adapter a thread t message w adapter
          ∙ ap
              (λ m.
                w.outputs
                ++ responded (record (thread.channel_ref) { properties = some m }) message ∷ [])
              same,
      send_response_lem quote find api p ref message g
            (parse_ref-response thread.channel_ref props e c fits_num fits_id has_repo has_num)
          ∙ rw (splits, found)
              (ap (λ r. (r, p'))
                (post_message-review api g message owner repo known refl numbered)),
    )
