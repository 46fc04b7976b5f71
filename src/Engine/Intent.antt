-- ===== src/Engine/Intent.antt =====
-- The intent classifier, internal/engine/intent.go. The language model is outside: a `Provider`
-- answers by the step at which it is asked.
pub mod Parsing
use ai_coworker.Prelude.{
  ℕ, ◌+◌, Bool, true, false, Option, none, some, List, [], ◌∷◌, ◌++◌, ◌&&◌, map, Text, Dict, text,
  text_eq, trim_space, lookup, get, is_some, leb, ltb, if◌then◌else◌, is_empty, newline,
}
use ai_coworker.Domain.{Role, Intent, IncomingEvent, Message, role_text}
use ai_coworker.Store.{Error, wrap, Result, ok, err}
use ai_coworker.Engine.World.{Action, ◌>>=◌, ◌>>◌, pure, raise, attempt, pass, from_result}

-- `llm.Message`.
pub record ChatMessage : Type 0 where
  pub role : Role
  pub content : Text

-- `llm.Provider`: `Chat`, by the step of the call.
abbrev pub Provider : Type 0
Provider = ℕ → List ChatMessage → Result Text

-- A nil map reads as the empty one.
abbrev pub entries : Option Dict → Dict
entries none = []
entries (some m) = m

-- `unicode.ToLower`; what it does above ASCII is Go's table, an argument here.
unfoldable pub lower : (ℕ → ℕ) → ℕ → ℕ
lower table c = if leb b'A' c && leb c b'Z' then c + 32 else if ltb c 128 then c else table c

-- `strings.ToLower(strings.TrimSpace(response))`.
unfoldable pub normalized : (ℕ → ℕ) → Text → Text
unfolding lower trim_space
normalized table response = map (lower table) (trim_space response)

-- The cases of the `switch`.
unfoldable pub intent_of : Text → Intent
unfolding text_eq
intent_of t =
    if text_eq t (text "code_task")
    then Intent.code_task
    else if text_eq t (text "review")
    then Intent.review
    else if text_eq t (text "info_lookup")
    then Intent.info_lookup
    else if text_eq t (text "question")
    then Intent.question
    else if text_eq t (text "discussion")
    then Intent.discussion
    else Intent.unknown

unfoldable pub parse_intent : (ℕ → ℕ) → Text → Intent
unfolding normalized intent_of
parse_intent table response = intent_of (normalized table response)

-- The events that are reviews whatever the model would say.
unfoldable pub is_review_event : IncomingEvent → Bool
unfolding lookup get text_eq
is_review_event event =
    if is_some (lookup "review_state" (entries event.metadata))
    then true
    else text_eq (get "type" (entries event.metadata)) (text "review_comment")

unfoldable pub history_lines : List Message → Text
unfolding role_text
history_lines [] = []
history_lines (m ∷ ms) =
    text "[" ++ (role_text m.role ++ (text "]: " ++ (m.content ++ (newline ∷ history_lines ms))))

unfoldable pub history_section : List Message → Text
unfolding history_lines
history_section [] = []
history_section (m ∷ ms) = text "Conversation history:\n" ++ (history_lines (m ∷ ms) ++ text "\n")

unfoldable pub classifier_prompt : IncomingEvent → List Message → Text
unfolding history_section
classifier_prompt event history =
    text
      "You are an intent classifier. Given the following conversation, classify the latest message into exactly one of these categories:\n"
    ++ (text "- code_task: the user is requesting code changes, implementation, or a coding task\n"
        ++ (text "- review: the user is requesting a code review\n"
            ++ (text
                  "- info_lookup: the user is asking about something that requires looking up external information (e.g. a GitHub PR, issue, repository, URL, or project state). This includes follow-up questions about external resources mentioned earlier in the conversation, even if the latest message itself is short (e.g. \"^\" or \"what about this?\")\n"
                ++ (text
                      "- question: the user is asking a question that can be answered from general knowledge or the current conversation context, without needing to look up any external systems\n"
                    ++ (text
                          "- discussion: the user wants to discuss or brainstorm something without needing concrete information from external systems\n\n"
                        ++ (history_section history
                            ++ (text "Latest message: "
                                ++ (event.content
                                    ++ (text "\n\n"
                                        ++ text
                                            "Respond with exactly one word: code_task, review, info_lookup, question, or discussion.")))))))))

-- What `Classify` makes of the answer of the model.
abbrev pub judged : (ℕ → ℕ) → Result Text → Result Intent
judged table (ok response) = ok (parse_intent table response)
judged table (err e) = err (wrap (text "classifying intent") e)

unfoldable pub ask : (ℕ → ℕ) → Provider → IncomingEvent → List Message → Action Intent
ask table provider event history = do
  n ← pass
  from_result (
      judged table
        (provider n (record { role = Role.user; content = classifier_prompt event history } ∷ [])))

unfoldable pub classify : (ℕ → ℕ) → Provider → IncomingEvent → List Message → Action Intent
classify table provider event history =
    if is_review_event event then pure Intent.review else ask table provider event history
