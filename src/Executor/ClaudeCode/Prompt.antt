-- ===== src/Executor/ClaudeCode/Prompt.antt =====
-- The prompt of Claude Code: buildPrompt of internal/executor/claudecode/claudecode.go.
use ai_coworker.Prelude.{
  Bool, not, Option, none, some, List, [], ◌∷◌, ◌++◌, ◌&&◌, Text, Dict, text, text_eq, lookup, get,
  is_empty, is_some, newline, if◌then◌else◌,
}
use ai_coworker.Domain.{Role, Message}
use ai_coworker.Engine.Intent.{entries}

-- Of the executor's context: the metadata of the event, the messages, and the input of the task.
pub record Input : Type 0 where
  pub metadata : Option Dict
  pub messages : List Message
  pub task_input : Text

-- Which of the two places an issue number is told in.
abbrev pub is_pull_request : Dict → Bool
is_pull_request m = is_some (lookup "issue_num" m) && text_eq (get "is_pr" m) (text "true")

abbrev pub line_of : Text → Option Text → Text → Text
line_of before none after = []
line_of before (some t) after = before ++ (t ++ after)

abbrev pub file_lines : Dict → Text
file_lines m =
    if not (is_empty (get "start_line" m)) && not (is_empty (get "line" m))
    then text " (lines " ++ (get "start_line" m ++ (text "-" ++ (get "line" m ++ text ")")))
    else if not (is_empty (get "line" m))
    then text " (line " ++ (get "line" m ++ text ")")
    else []

abbrev pub unless_empty : Text → Text → Text
unless_empty t section = if is_empty t then [] else section

-- The part of the prompt that is about the event; `quote` is the verb %q of fmt.
unfoldable pub event_section : (Text → Text) → Dict → Text
unfolding lookup get text_eq
event_section quote m =
    line_of (text "Repository: ") (lookup "repo" m) (text "\n")
    ++ (line_of (if is_pull_request m then text "Pull Request: #" else text "Issue: #")
          (lookup "issue_num" m) (text "\n")
        ++ (text "\n"
            ++ (unless_empty (get "path" m)
                  (text "File: " ++ (get "path" m ++ (file_lines m ++ text "\n\n")))
                ++ (unless_empty (get "comment_thread" m) (
                      text "=== YOUR TASK ===\n"
                      ++ (unless_empty (get "quoted_text" m)
                            (text "Comment on: " ++ (quote (get "quoted_text" m) ++ text "\n"))
                          ++ (get "comment_thread" m ++ text "\n")))
                    ++ unless_empty (get "document_context" m)
                        (get "document_context" m ++ text "\n\n")))))

abbrev pub speaker : Role → Text
speaker Role.assistant = text "Assistant"
speaker _ = text "User"

unfoldable pub spoken : List Message → Text
spoken [] = []
spoken (m ∷ ms) = speaker m.role ++ (text ": " ++ (m.content ++ newline ∷ spoken ms))

abbrev pub history_part : List Message → Text
history_part [] = []
history_part (m ∷ ms) = text "Conversation history:\n" ++ (spoken (m ∷ ms) ++ text "\n")

abbrev pub event_part : (Text → Text) → Option Dict → Text
event_part quote none = []
event_part quote (some m) = event_section quote m

unfoldable pub build_prompt : (Text → Text) → Input → Text
unfolding lookup get text_eq event_section spoken
build_prompt quote c =
    text "You are an AI coworker that helps with software development tasks.\n"
    ++ (text "You have access to the repository and can make changes as needed.\n"
        ++ (text
              "Use the `gh` CLI to fetch issue or PR details (e.g. `gh issue view <number>`) and to check CI status (e.g. `gh run list`, `gh run view <id> --log-failed`).\n\n"
            ++ (event_part quote c.metadata
                ++ (history_part c.messages
                    ++ (unless_empty c.task_input
                          (text "Latest request: " ++ (c.task_input ++ text "\n\n"))
                        ++ (if is_pull_request (entries c.metadata)
                            then text
                                "You are on the PR branch. Make changes and push directly to this branch."
                            else text
                                "If this task requires code changes, create a new branch and open a pull request with your changes."))))))
