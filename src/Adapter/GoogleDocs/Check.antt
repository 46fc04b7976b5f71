-- ===== src/Adapter/GoogleDocs/Check.antt =====
-- The check of a document's comments and of all changed documents: checkDocumentComments and
-- processChanges of internal/adapter/googledocs/googledocs.go.
pub mod SavedTime
pub mod Laws
use ai_coworker.Prelude.{
  ℕ, suc, Bool, true, false, Option, none, some, List, [], ◌∷◌, ◌++◌, Text, text, keep, ltb,
  is_empty, ℤ, map, if◌then◌else◌,
}
use ai_coworker.Domain.{ChannelRef, IncomingEvent}
use ai_coworker.Store.{
  Error, wrap, Result, ok, err, is_not_found, get_adapter_state, set_adapter_state, Db,
}
use ai_coworker.Engine.World.{Env, World, Action, ◌>>=◌, ◌>>◌, pure, raise, attempt, call, reading}
use ai_coworker.Adapter.GoogleDocs.{new_ref}
use ai_coworker.Adapter.GoogleDocs.Comments.{
  Author, Comment, extract_content, is_handed, format_comment_thread,
}
use ai_coworker.Adapter.GoogleDocs.Context.{build_document_context}
use ai_coworker.Adapter.GoogleDocs.Pages.{CommentPage, list_pages}
use ai_coworker.Adapter.GoogleDocs.Changes.{ChangePage, Listing, changed_documents}

-- What the service answers while the changes are processed: the comments of a document that were
-- modified since a time, all its comments and its text.
pub record Drive : Type 0 where
  pub changes : ℕ → Text → Result ChangePage
  pub modified : Text → Text → ℕ → Text → Result CommentPage
  pub comments : Text → ℕ → Text → Result CommentPage
  pub export : Text → Result Text

-- The adapter: what is fixed in `Config` and by `New`, the handler it was started with, and its surroundings.
-- `later` adds a millisecond to a time, if the text is one; `quote` is the verb %q of fmt.
pub record Setup : Type 0 where
  pub bot_email : Text
  pub content_max_size : ℤ
  pub max_pages : ℕ
  pub handler : List IncomingEvent → Action (Unit {0})
  pub later : Text → Option Text
  pub quote : Text → Text

-- How a check ended that returned no error; `crashed` is a panic.
pub data Checked : Type 0 where
  nothing_new : Checked
  handed_on : Checked
  crashed : Checked

-- `<` on strings.
unfoldable pub text_lt : Text → Text → Bool
text_lt [] [] = false
text_lt [] (b ∷ t) = true
text_lt (a ∷ s) [] = false
text_lt (a ∷ s) (b ∷ t) =
    let rest = text_lt s t in if ltb a b then true else if ltb b a then false else rest

unfoldable pub latest_modified : Text → List Comment → Text
unfolding text_lt
latest_modified latest [] = latest
latest_modified latest (c ∷ cs) =
    latest_modified (if text_lt latest c.modified_time then c.modified_time else latest) cs

abbrev pub user_of : Option Author → Text
user_of none = []
user_of (some a) = a.email

abbrev pub quoted_text : Option Text → Text
quoted_text none = []
quoted_text (some q) = q

-- `x, err := …` where the error is only logged.
abbrev pub or_empty : Result Text → Text
or_empty (ok t) = t
or_empty (err e) = []

abbrev pub or_none : Result (List Comment) → List Comment
or_none (ok cs) = cs
or_none (err e) = []

unfoldable pub comment_event : Text → Comment → Text → IncomingEvent
unfolding format_comment_thread extract_content
comment_event file c context = record {
  channel_ref = new_ref file c.id;
  thread_id = text "googledocs-" ++ (file ++ (text "-" ++ c.id));
  user_id = user_of c.author;
  content = extract_content c;
  metadata = some (
      ("document_id", file)
      ∷ ("comment_id", c.id)
      ∷ ("document_context", context)
      ∷ ("quoted_text", quoted_text c.quoted)
      ∷ ("comment_thread", format_comment_thread c)
      ∷ []);
}

abbrev pub event_before :
    Option IncomingEvent → Option (List IncomingEvent) → Option (List IncomingEvent)
event_before (some e) (some es) = some (e ∷ es)
event_before (some e) none = none
event_before none es = none

abbrev pub with_context : Text → Comment → Option Text → Option IncomingEvent
with_context file c none = none
with_context file c (some context) = some (comment_event file c context)

module _ (a : Setup) where
  -- The events of the comments; `none` is a fault while a context is made.
  unfoldable pub comment_events :
      Text → Text → List Comment → List Comment → Option (List IncomingEvent)
  unfolding comment_event build_document_context
  comment_events file doc others [] = some []
  comment_events file doc others (c ∷ cs) =
      event_before
        (with_context file c (build_document_context a.quote doc others c.id a.content_max_size))
        (comment_events file doc others cs)

  -- A millisecond after the last modification.
  abbrev pub saved_time : List Comment → Option Text
  saved_time relevant =
      let latest = latest_modified [] relevant in if is_empty latest then none else a.later latest

  module _ (drive : Drive) (env : Env) where
    abbrev pub handled : Result (Unit {0}) → Action Checked
    handled (ok _) = pure Checked.handed_on
    handled (err e) = raise (wrap (text "handling events") e)

    abbrev pub hand_on : List IncomingEvent → Action Checked
    hand_on events = attempt (a.handler events) >>= handled

    -- The time is saved first; an error of that is only logged.
    abbrev pub save_then : Text → Option Text → Action Checked → Action Checked
    save_then file none next = next
    save_then file (some time) next =
        attempt (call env (λ n db. (ok tt, set_adapter_state (text "googledocs") file time db)))
        >>= λ _. next

    abbrev pub with_events : Text → List Comment → Option (List IncomingEvent) → Action Checked
    with_events file relevant none = pure Checked.crashed
    with_events file relevant (some events) = save_then file (saved_time relevant) (hand_on events)

    abbrev pub all_comments : Text → List Comment
    all_comments file =
        or_none (list_pages (drive.comments file) (text "listing all comments") a.max_pages 0 [])

    abbrev pub with_relevant : Text → List Comment → Action Checked
    with_relevant file [] = pure Checked.nothing_new
    with_relevant file (c ∷ cs) =
        with_events file (c ∷ cs)
          (comment_events file (or_empty (drive.export file)) (all_comments file) (c ∷ cs))

    abbrev pub with_modified : Text → Result (List Comment) → Action Checked
    with_modified file (err e) = raise e
    with_modified file (ok cs) = with_relevant file (keep (is_handed a.bot_email) cs)

    abbrev pub modified_since : Text → Text → Result (List Comment)
    modified_since file since =
        list_pages (drive.modified file since) (text "listing comments") a.max_pages 0 []

    abbrev pub with_last_seen : Text → Result Text → Action Checked
    with_last_seen file (ok since) = with_modified file (modified_since file since)
    with_last_seen file (err e) =
        if is_not_found e
        then with_modified file (modified_since file [])
        else raise (wrap (text "getting last seen timestamp") e)

    unfoldable pub check_document_comments : Text → Action Checked
    unfolding ◌>>=◌ call is_not_found is_handed keep list_pages comment_events latest_modified
        get_adapter_state set_adapter_state
    check_document_comments file =
        attempt (call env (reading (get_adapter_state (text "googledocs") file)))
        >>= with_last_seen file

    -- The documents one after the other: an error is logged, a panic ends the program.
    abbrev pub go_on : Result Checked → Action Checked → Action Checked
    go_on (ok Checked.crashed) next = pure Checked.crashed
    go_on (ok Checked.nothing_new) next = next
    go_on (ok Checked.handed_on) next = next
    go_on (err e) next = next

    unfoldable pub check_documents : List Text → Action Checked
    unfolding check_document_comments ◌>>=◌
    check_documents [] = pure Checked.handed_on
    check_documents (file ∷ files) =
        attempt (check_document_comments file) >>= λ r. go_on r (check_documents files)

    abbrev pub with_changes : Text → Listing → Text × Action Checked
    with_changes token (err e) = (token, raise e)
    with_changes token (ok (files, next)) = (next, check_documents files)

    -- The page token that is kept, and the run.
    unfoldable pub process_changes : Text → Text × Action Checked
    unfolding changed_documents check_documents
    process_changes token =
        if is_empty token
        then ([], pure Checked.nothing_new)
        else with_changes token (changed_documents drive.changes a.max_pages 0 token [])
