-- ===== src/Engine/Reply.antt =====
-- Reviews that are answered as one: `buildMergedReviewInput` and `parseCommentResponses` of
-- internal/engine/worker.go.
pub mod Scan
pub mod RoundTrip
pub mod Answers
use ai_coworker.Prelude.{
  ℕ, zero, suc, ◌+◌, ◌-◌, Bool, true, false, Option, none, some, List, [], ◌∷◌, ◌++◌, ◌&&◌, ◌||◌,
  not, Text, Dict, text, text_eq, get, ◌==◌, if◌then◌else◌, length, take, drop, newline,
  strip_prefix, is_empty, trim_space, ℤ, pos, atoi, show_nat, is_digit,
}
use ai_coworker.Domain.{Task}
use ai_coworker.Engine.Intent.{entries}

-- What of a task is told in the header of its section.
unfoldable pub line_range : Dict → Text
unfolding get
line_range m =
    if not (is_empty (get "start_line" m)) && not (is_empty (get "line" m))
    then text ", lines " ++ (get "start_line" m ++ (text "-" ++ get "line" m))
    else if not (is_empty (get "line" m))
    then text ", line " ++ get "line" m
    else []

unfoldable pub section_label : Dict → Text
unfolding get text_eq line_range
section_label m =
    if text_eq (get "type" m) (text "review")
    then text " (review body)"
    else if not (is_empty (get "path" m))
    then text " (on file: " ++ (get "path" m ++ (line_range m ++ text ")"))
    else []

unfoldable pub review_sections : ℕ → List Task → Text
unfolding section_label show_nat
review_sections i [] = []
review_sections i (t ∷ ts) =
    text "--- Comment "
    ++ (show_nat i
        ++ (section_label (entries t.metadata)
            ++ (text " ---\n" ++ (t.input ++ (text "\n\n" ++ review_sections (suc i) ts)))))

unfoldable pub build_merged_review_input : Task → List Task → Text
unfolding review_sections
build_merged_review_input primary absorbed =
    text "This review contains multiple comments. Please address all of them.\n"
    ++ (text
          "After making all changes, respond with one section per comment using this exact format:\n\n"
        ++ (text "--- COMMENT 1 ---\n"
            ++ (text "Your response for comment 1\n\n"
                ++ (text "--- COMMENT 2 ---\n"
                    ++ (text "Your response for comment 2\n\n"
                        ++ (text "Here are the review comments:\n\n"
                            ++ review_sections 1 (primary ∷ absorbed)))))))

-- `\s` of the regular expression.
abbrev pub is_re_space : ℕ → Bool
is_re_space c = c == 9 || c == 10 || c == 12 || c == 13 || c == 32

unfoldable pub drop_spaces : Text → Text
drop_spaces [] = []
drop_spaces (c ∷ t) = if is_re_space c then drop_spaces t else c ∷ t

-- `\s+`
unfoldable pub some_spaces : Text → Option Text
unfolding drop_spaces
some_spaces [] = none
some_spaces (c ∷ t) = if is_re_space c then some (drop_spaces t) else none

-- `\d*` and what follows it.
unfoldable pub span_digits : Text → Text × Text
span_digits [] = ([], [])
span_digits (c ∷ t) =
    let (ds, rest) = span_digits t in if is_digit c then (c ∷ ds, rest) else ([], c ∷ t)

-- `\d+`
abbrev pub some_digits : Text × Text → Option (Text × Text)
some_digits ([], rest) = none
some_digits (d ∷ ds, rest) = some (d ∷ ds, rest)

-- `\s*$` with `(?m)`: the longest run of spaces that the end of the text or of a line follows.
unfoldable pub line_end : Text → Option Text
line_end [] = some []
line_end (c ∷ t) =
    let longer = line_end t in
    if is_re_space c
    then elim longer [ some rest ↦ some rest | none ↦ if c == newline then some (c ∷ t) else none ]
    else none

infixl 5 ◌>>=◌
abbrev pub ◌>>=◌ {ℓ κ} : {A : Type ℓ} {B : Type κ} → Option A → (A → Option B) → Option B
none >>= k = none
some a >>= k = k a

-- `---\s*COMMENT\s+(\d+)\s*---\s*$` at the head of a text: the number, and what follows the match.
-- Each part can match in one way alone, so there is nothing to try again.
unfoldable pub match_header : Text → Option (Text × Text)
match_header t = do
  dashed ← strip_prefix (text "---") t
  named ← strip_prefix (text "COMMENT") (drop_spaces dashed)
  spaced ← some_spaces named
  (digits, rest) ← some_digits (span_digits spaced)
  closed ← strip_prefix (text "---") (drop_spaces rest)
  after ← line_end closed
  some (digits, after)

-- A match: where it begins and ends, and its number.
pub record Match : Type 0 where
  pub start : ℕ
  pub stop : ℕ
  pub number : Text

abbrev pub found_at : ℕ → Text → Option (Text × Text) → List Match
found_at at t none = []
found_at at t (some (digits, after)) =
    record { start = at; stop = at + (length t - length after); number = digits } ∷ []

-- How many of the next characters the match has consumed.
abbrev pub consumed : Text → Option (Text × Text) → ℕ
consumed t none = 0
consumed t (some (digits, after)) = length t - length after

-- `FindAllStringSubmatchIndex`: from left to right, past the characters of the last match; a match
-- begins at the start of a line.
unfoldable pub find_headers : ℕ → ℕ → Bool → Text → List Match
find_headers at skip bol [] = []
find_headers at zero bol (c ∷ t) =
    let found : Option (Text × Text) = if bol then match_header (c ∷ t) else none in
    found_at at (c ∷ t) found ++ find_headers (suc at) (consumed (c ∷ t) found - 1) (c == newline) t
find_headers at (suc skip) bol (c ∷ t) = find_headers (suc at) skip (c == newline) t

-- `output[a:b]`
unfoldable pub slice : ℕ → ℕ → Text → Text
slice a b t = take (b - a) (drop a t)

-- `map[int]string`
abbrev pub Responses : Type 0
Responses = List (ℤ × Text)

unfoldable pub same_int : ℤ → ℤ → Bool
same_int (ℤ.pos a) (ℤ.pos b) = a == b
same_int (ℤ.negsuc a) (ℤ.negsuc b) = a == b
same_int _ _ = false

unfoldable pub find_response : ℤ → Responses → Option Text
find_response i [] = none
find_response i ((j, r) ∷ rs) = if same_int j i then some r else find_response i rs

unfoldable pub put_response : ℤ → Text → Responses → Responses
put_response i r [] = (i, r) ∷ []
put_response i r ((j, s) ∷ rs) = if same_int j i then (i, r) ∷ rs else (j, s) ∷ put_response i r rs

-- Where the content of a match ends: at the next match, or at the end of the output.
abbrev pub content_end : Text → List Match → ℕ
content_end output [] = length output
content_end output (m ∷ ms) = m.start

abbrev pub add_response : Option ℤ → Text → Responses → Responses
add_response none content rs = rs
add_response (some i) content rs = put_response i content rs

unfoldable pub collect : Text → List Match → Responses → Responses
collect output [] rs = rs
collect output (m ∷ ms) rs =
    collect output ms
      (add_response (atoi m.number) (trim_space (slice m.stop (content_end output ms) output)) rs)

-- `none` is the nil map.
abbrev pub responses_of : Text → List Match → Option Responses
responses_of output [] = none
responses_of output (m ∷ ms) = some (collect output (m ∷ ms) [])

unfoldable pub parse_comment_responses : Text → Option Responses
parse_comment_responses output = responses_of output (find_headers 0 0 true output)

-- The answer to one task of a batch: its section, or the whole answer.
abbrev pub section_or_all : Option Responses → ℕ → Text → Text
section_or_all none i whole = whole
section_or_all (some rs) i whole = elim (find_response (ℤ.pos i) rs) [ some r ↦ r | none ↦ whole ]
