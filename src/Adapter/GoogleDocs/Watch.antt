-- ===== src/Adapter/GoogleDocs/Watch.antt =====
-- The watch on the drive, its notifications and the replies to comments, of
-- internal/adapter/googledocs/googledocs.go. What the service answers is an argument.
use ai_coworker.Prelude.{
  ℕ, ◌-◌, ◌*◌, Bool, true, false, not, Text, text, text_eq, is_empty, ltb, if◌then◌else◌,
}
use ai_coworker.Domain.{ChannelRef}
use ai_coworker.Store.{fault, wrap, Result, ok, err}
use ai_coworker.Adapter.GoogleDocs.{parse_ref}

-- What of the adapter changes while it runs.
pub record Watch : Type 0 where
  pub page_token : Text
  pub channel_id : Text
  pub resource_id : Text

-- `drive.Channel`, as it is read of an answer; the expiration is in milliseconds.
pub record Channel : Type 0 where
  pub id : Text
  pub resource_id : Text
  pub expiration : ℕ

abbrev pub registered : Watch → Text → Result Channel → Result ℕ × Watch
registered a token (err e) =
    (err (wrap (text "registering drive watch") e), record a { page_token = token })
registered a token (ok c) =
    (ok c.expiration, record { page_token = token; channel_id = c.id; resource_id = c.resource_id })

-- `watch` is the answer to `Changes.Watch`, by the token that is watched from.
abbrev pub started : Watch → Result Text → (Text → Result Channel) → Result ℕ × Watch
started a (err e) watch = (err (wrap (text "getting start page token") e), a)
started a (ok token) watch = registered a token (watch token)

unfoldable pub register_watch :
    Text → Result Text → (Text → Result Channel) → Watch → Result ℕ × Watch
register_watch webhook_url start watch a =
    if is_empty webhook_url
    then (err (fault (text "webhookUrl is required for Drive push notifications")), a)
    else started a start watch

-- The channel and the resource that the service is asked to stop, if there is a channel; the error
-- of that is only logged.
pub data Stop : Type 0 where
  nothing : Stop
  stop : Text → Text → Stop

unfoldable pub stop_watch : Watch → Stop
stop_watch a = if is_empty a.channel_id then Stop.nothing else Stop.stop a.channel_id a.resource_id

-- Seconds until the watch is renewed, of the seconds until it expires: five minutes before that, and
-- a minute at least. Between them ℕ's subtraction stops at 0, which is below a minute too.
unfoldable pub renew_after : ℕ → ℕ
renew_after left = let early = left - 5 * 60 in if ltb early 60 then 60 else early

-- The answer to a notification: its status, and whether the changes are processed.
pub record Answer : Type 0 where
  pub status : ℕ
  pub processes : Bool

unfoldable pub handle_notification : Text → Text → Text → Answer
unfolding text_eq
handle_notification channel_token token state =
    if not (text_eq token channel_token)
    then record { status = 403; processes = false }
    else if text_eq state (text "sync")
    then record { status = 200; processes = false }
    else record { status = 200; processes = true }

abbrev pub replied : Text → Result (Unit {0}) → Result (Unit {0})
replied what (ok _) = ok tt
replied what (err e) = err (wrap what e)

-- `create` is the answer to `Replies.Create`, by the document, the comment, the content and the action.
module _ (create : Text → Text → Text → Text → Result (Unit {0})) where
  unfoldable pub send_response : ChannelRef → Text → Result (Unit {0})
  unfolding parse_ref
  send_response ref message =
      let g = parse_ref ref in
      replied (text "failed to create reply")
        (create g.document_id g.comment_id message (text "reopen"))

  unfoldable pub acknowledge : ChannelRef → Result (Unit {0})
  unfolding parse_ref
  acknowledge ref =
      let g = parse_ref ref in
      replied (text "failed to acknowledge comment")
        (create g.document_id g.comment_id (text "Looking into this...") (text "reopen"))

-- `read` is what is read of the key file, `unmarshal` takes the field `client_email` out of it.
abbrev pub given_email : Text → Result Text
given_email email =
    if is_empty email then err (fault (text "client_email not found in key file")) else ok email

abbrev pub unmarshalled : Result Text → Result Text
unmarshalled (err e) = err (wrap (text "parsing key file") e)
unmarshalled (ok email) = given_email email

unfoldable pub extract_service_account_email : Result Text → (Text → Result Text) → Result Text
extract_service_account_email (err e) unmarshal = err (wrap (text "reading key file") e)
extract_service_account_email (ok data_read) unmarshal = unmarshalled (unmarshal data_read)
