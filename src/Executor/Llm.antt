-- ===== src/Executor/Llm.antt =====
-- The executor that asks the language model, internal/executor/llmexec. Of the executor's context the
-- metadata of the event, the messages and the input of the task are read; `quote` is `strconv.Quote`.
use ai_coworker.Prelude.{
  ℕ, Option, List, [], ◌∷◌, ◌++◌, map, Text, Dict, text, get, is_empty, if◌then◌else◌,
}
use ai_coworker.Domain.{Role, Message}
use ai_coworker.Store.{wrap, Result, ok, err}
use ai_coworker.Engine.Intent.{ChatMessage, Provider, entries}

unfoldable pub system_prompt : (Text → Text) → Dict → Text
unfolding get
system_prompt quote m =
    text
      "You are a helpful AI coworker. Assist with questions, discussions, and reviews related to software development. Be concise and helpful."
    ++ ((if is_empty (get "comment_thread" m)
          then []
          else text "\n\n=== YOUR TASK ===\n"
            ++ ((if is_empty (get "quoted_text" m)
                  then []
                  else text "Comment on: " ++ (quote (get "quoted_text" m) ++ text "\n"))
                ++ get "comment_thread" m))
        ++ (if is_empty (get "document_context" m)
            then []
            else text "\n" ++ get "document_context" m))

abbrev pub as_chat : Message → ChatMessage
as_chat m = record { role = m.role; content = m.content }

-- The messages that the model is asked with.
unfoldable pub chat_messages : (Text → Text) → Option Dict → List Message → Text → List ChatMessage
unfolding system_prompt
chat_messages quote meta history input =
    record { role = Role.system; content = system_prompt quote (entries meta) }
    ∷ (map as_chat history
        ++ (if is_empty input then [] else record { role = Role.user; content = input } ∷ []))

abbrev pub chat_result : Result Text → Result Text
chat_result (ok response) = ok response
chat_result (err e) = err (wrap (text "LLM chat failed") e)

unfoldable pub execute :
    (Text → Text) → Provider → ℕ → Option Dict → List Message → Text → Result Text
execute quote provider n meta history input =
    chat_result (provider n (chat_messages quote meta history input))
