-- ===== src/Llm.antt =====
-- The providers of a language model, internal/llm/anthropic and internal/llm/openai: the request that is
-- made of the messages, and what is read of the answer.
use ai_coworker.Prelude.{ℕ, List, [], ◌∷◌, Text, text}
use ai_coworker.Domain.{Role}
use ai_coworker.Store.{fault, wrap, Result, ok, err}
use ai_coworker.Engine.Intent.{ChatMessage, Provider}

-- A block of Anthropic's answer, by whether it is of type "text".
pub data Block : Type 0 where
  text_block : Text → Block
  other_block : Block

-- `MessageNewParams`: the system blocks stand apart from the conversation.
pub record AnthropicRequest : Type 0 where
  pub max_tokens : ℕ
  pub model : Text
  pub system : List Text
  pub messages : List ChatMessage

abbrev pub add_message :
    ChatMessage → Role → List Text × List ChatMessage → List Text × List ChatMessage
add_message m Role.system (blocks, params) = (m.content ∷ blocks, params)
add_message m Role.user (blocks, params) = (blocks, m ∷ params)
add_message m Role.assistant (blocks, params) = (blocks, m ∷ params)

unfoldable pub convert_messages : List ChatMessage → List Text × List ChatMessage
convert_messages [] = ([], [])
convert_messages (m ∷ ms) = add_message m m.role (convert_messages ms)

unfoldable pub anthropic_request : Text → List ChatMessage → AnthropicRequest
unfolding convert_messages
anthropic_request model ms =
    let (blocks, params) = convert_messages ms in
    record { max_tokens = 4096; model = model; system = blocks; messages = params }

unfoldable pub first_text : List Block → Result Text
first_text [] = err (fault (text "anthropic chat: no text block in response"))
first_text (text_block t ∷ _) = ok t
first_text (other_block ∷ bs) = first_text bs

abbrev pub anthropic_answer : Result (List Block) → Result Text
anthropic_answer (err e) = err (wrap (text "anthropic chat") e)
anthropic_answer (ok bs) = first_text bs

-- `ask` is the answer to a request, by the step of the call.
unfoldable pub anthropic : (ℕ → AnthropicRequest → Result (List Block)) → Text → Provider
unfolding anthropic_request first_text
anthropic ask model n ms = anthropic_answer (ask n (anthropic_request model ms))

pub record OpenAiRequest : Type 0 where
  pub model : Text
  pub messages : List ChatMessage

abbrev pub openai_answer : Result (List Text) → Result Text
openai_answer (err e) = err (wrap (text "openai chat") e)
openai_answer (ok []) = err (fault (text "openai chat: no choices in response"))
openai_answer (ok (choice ∷ _)) = ok choice

-- Every role has a message of its own kind; the answer has its choices.
unfoldable pub openai : (ℕ → OpenAiRequest → Result (List Text)) → Text → Provider
openai ask model n ms = openai_answer (ask n (record { model = model; messages = ms }))
