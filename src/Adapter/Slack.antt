-- ===== src/Adapter/Slack.antt =====
-- The Slack adapter, internal/adapter/slack: the references, the event of a mention and the context
-- of its thread.
use ai_coworker.Prelude.{
  ◌≡◌, ◌≢◌, refl, false, Option, none, some, List, [], ◌∷◌, ◌++◌, Text, text, text_eq, lookup, get,
  insert, is_empty, trim_space, newline, if◌then◌else◌,
}
use ai_coworker.Domain.{ChannelRef, IncomingEvent}
use ai_coworker.Store.{wrap, Result, ok, err}
use ai_coworker.Engine.Intent.{entries}
use ai_coworker.Adapter.Mention.{remove_first}

pub record SlackRef : Type 0 where
  pub channel_id : Text
  pub thread_ts : Text
  pub message_ts : Text

unfoldable pub new_ref : Text → Text → ChannelRef
new_ref channel thread_ts = record {
  channel = text "slack";
  thread_key = channel ++ (text "/" ++ thread_ts);
  properties = some (("channel_id", channel) ∷ ("thread_ts", thread_ts) ∷ []);
}

unfoldable pub parse_ref : ChannelRef → SlackRef
unfolding get lookup
parse_ref ref = record {
  channel_id = get "channel_id" (entries ref.properties);
  thread_ts = get "thread_ts" (entries ref.properties);
  message_ts = get "message_ts" (entries ref.properties);
}

-- `slackevents.AppMentionEvent`, as far as it is read.
pub record AppMention : Type 0 where
  pub user : Text
  pub content : Text
  pub channel : Text
  pub time_stamp : Text
  pub thread_time_stamp : Text

-- `slack.Message`, as far as it is read.
pub record SlackMessage : Type 0 where
  pub user : Text
  pub content : Text
  pub timestamp : Text

unfoldable pub strip_bot_mention : Text → Text → Text
unfolding remove_first
strip_bot_mention t bot = trim_space (remove_first (text "<@" ++ (bot ++ text ">")) t)

-- The lines of the messages, without the current one and those without text.
unfoldable pub context_lines : List SlackMessage → Text → Text
context_lines [] current = []
context_lines (m ∷ ms) current =
    let rest = context_lines ms current in
    if text_eq m.timestamp current
    then rest
    else if is_empty m.content
    then rest
    else (if is_empty m.user then text "Bot" else m.user)
      ++ (text ": " ++ (m.content ++ newline ∷ rest))

unfoldable pub format_thread_context : List SlackMessage → Text → Text
unfolding context_lines
format_thread_context ms current =
    let lines = context_lines ms current in
    if is_empty lines then [] else text "[Thread context:]\n" ++ lines

-- What the service returns for a thread; the empty context, if it fails.
unfoldable pub fetch_thread_context : Option (List SlackMessage) → Text → Text
fetch_thread_context none current = []
fetch_thread_context (some ms) current = format_thread_context ms current

abbrev pub root_ts : AppMention → Text
root_ts e = if is_empty e.thread_time_stamp then e.time_stamp else e.thread_time_stamp

filled : (t : Text) → t ≢ [] → is_empty t ≡ false
filled [] h = absurd (h refl)
filled (c ∷ t) h = refl

-- `replies` are the messages of a thread, by channel and timestamp.
module _ (bot : Text) (replies : Text → Text → Option (List SlackMessage)) where
  abbrev pub mention_context : AppMention → Text
  mention_context e =
      if is_empty e.thread_time_stamp
      then []
      else fetch_thread_context (replies e.channel (root_ts e)) e.time_stamp

  abbrev pub with_context : Text → Text → Text
  with_context context t =
      if is_empty context then t else context ++ (text "\n[Current message:]\n" ++ t)

  -- The event that an app mention is made into.
  unfoldable pub mention_event : AppMention → IncomingEvent
  unfolding insert
  mention_event e =
      let ref = new_ref e.channel (root_ts e) in
      record {
        channel_ref = record ref {
          properties = some (insert "message_ts" e.time_stamp (entries ref.properties));
        };
        thread_id = text "slack-" ++ (e.channel ++ (text "-" ++ root_ts e));
        user_id = e.user;
        content = with_context (mention_context e) (strip_bot_mention e.content bot);
        metadata = none;
      }

  -- The message that is acknowledged with a reaction: its channel and its timestamp.
  abbrev pub reaction_target : ChannelRef → Text × Text
  reaction_target ref =
      let s = parse_ref ref in
      (s.channel_id, if is_empty s.message_ts then s.thread_ts else s.message_ts)

  -- The reaction to a mention goes to the message of the mention itself, unless its timestamp is
  -- empty, and the response to the channel and the thread of that message.
  pub parse_ref-mention_event :
      (e : AppMention)
      → parse_ref (mention_event e).channel_ref
        ≡ record { channel_id = e.channel; thread_ts = root_ts e; message_ts = e.time_stamp }
  unfolding mention_event parse_ref new_ref insert get lookup
  parse_ref-mention_event e = refl

  -- The messages of one thread, the one that begins it and the replies to it, get references with
  -- the same channel and key, so the router finds one thread for them.
  pub mention_event-thread :
      (root reply : AppMention)
      → root.thread_time_stamp ≡ []
      → root.time_stamp ≢ []
      → reply.channel ≡ root.channel
      → reply.thread_time_stamp ≡ root.time_stamp
      → ((mention_event reply).channel_ref.thread_key ≡ (mention_event root).channel_ref.thread_key)
        × ((mention_event reply).channel_ref.channel ≡ (mention_event root).channel_ref.channel)
  unfolding mention_event new_ref
  mention_event-thread root reply begins stamped channel thread =
      let marked : is_empty root.time_stamp ≡ false = filled root.time_stamp stamped in
      rw (channel, thread, begins, marked) (refl, refl)

abbrev pub sent : Text → Result (Unit {0}) → Result (Unit {0})
sent what (ok _) = ok tt
sent what (err e) = err (wrap what e)

-- `post` is the answer to a message, by the channel, the text and the thread; `react` to a reaction.
module _ (post : Text → Text → Text → Result (Unit {0}))
    (react : Text → Text → Text → Result (Unit {0})) (bot : Text)
    (replies : Text → Text → Option (List SlackMessage)) where
  unfoldable pub send_response : ChannelRef → Text → Result (Unit {0})
  unfolding parse_ref
  send_response ref message =
      let s = parse_ref ref in
      sent (text "failed to post slack message") (post s.channel_id message s.thread_ts)

  unfoldable pub acknowledge : ChannelRef → Result (Unit {0})
  unfolding parse_ref
  acknowledge ref =
      let (channel, timestamp) = reaction_target bot replies ref in
      sent (text "failed to add slack reaction") (react (text "eyes") channel timestamp)
