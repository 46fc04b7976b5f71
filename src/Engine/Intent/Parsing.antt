-- ===== src/Engine/Intent/Parsing.antt =====
-- How the answer of the model is read.
use ai_coworker.Prelude.{
  [], ◌∷◌, ◌⊎◌, ◌+◌, ◌≤◌, ◌<◌, trim_space, ℕ, ◌≡◌, ◌≢◌, refl, ap, ◌∙◌, ◌++◌, ◌↔◌, map, Text, text,
  text_eq_iff, arith,
}
use ai_coworker.Prelude.Trim.{IsSpaces, trim_space-around, trim_space-parts, trim_space-trim_space}
use ai_coworker.Domain.{Intent, intent_text}
use ai_coworker.Engine.Intent.{lower, normalized, intent_of, parse_intent}

-- The intents that the model may name.
abbrev pub IsNamed : Intent → Type 0
IsNamed i = (i ≢ Intent.unset) × (i ≢ Intent.unknown)

intent_of_sound : (t : Text) (i : Intent) → IsNamed i → intent_of t ≡ i → t ≡ intent_text i
unfolding intent_text intent_of
intent_of_sound t i known e = ground (
  arith,
  text_eq_iff t (text "code_task"),
  text_eq_iff t (text "review"),
  text_eq_iff t (text "info_lookup"),
  text_eq_iff t (text "question"),
  text_eq_iff t (text "discussion"),
)

intent_of-intent_text : (i : Intent) → IsNamed i → intent_of (intent_text i) ≡ i
unfolding intent_of intent_text
intent_of-intent_text Intent.unset h = absurd (h.0 refl)
intent_of-intent_text Intent.unknown h = absurd (h.1 refl)
intent_of-intent_text Intent.code_task h = refl
intent_of-intent_text Intent.question h = refl
intent_of-intent_text Intent.discussion h = refl
intent_of-intent_text Intent.review h = refl
intent_of-intent_text Intent.info_lookup h = refl

parse_intent_lem :
    (table : ℕ → ℕ) (r : Text) → parse_intent table r ≡ intent_of (normalized table r)
unfolding parse_intent
parse_intent_lem table r = refl

normalized-around :
    (table : ℕ → ℕ) (p r q : Text)
    → IsSpaces p
    → IsSpaces q
    → normalized table (p ++ (r ++ q)) ≡ normalized table r
unfolding normalized
normalized-around table p r q hp hq = ap (map (lower table)) (trim_space-around p r q hp hq)

-- The character is the other in lower case: an ASCII letter is 32 less than its lower case, other
-- ASCII stays, and what is above is the table's.
abbrev pub IsLowerOf : (ℕ → ℕ) → ℕ → ℕ → Type 0
IsLowerOf table c d =
    (65 ≤ c) × (c ≤ 90) × (d ≡ c + 32)
    ⊎ ((c < 65) ⊎ (90 < c)) × (c < 128) × (d ≡ c)
    ⊎ (128 ≤ c) × (d ≡ table c)

abbrev pub IsLowered : (ℕ → ℕ) → Text → Text → Type 0
IsLowered table [] [] = Unit
IsLowered table [] (d ∷ t) = ⊥
IsLowered table (c ∷ s) [] = ⊥
IsLowered table (c ∷ s) (d ∷ t) = IsLowerOf table c d × IsLowered table s t

lower_iff : (table : ℕ → ℕ) (c d : ℕ) → (lower table c ≡ d) ↔ IsLowerOf table c d
unfolding lower
lower_iff table c d = ground arith

map-lower_iff : (table : ℕ → ℕ) (s t : Text) → (map (lower table) s ≡ t) ↔ IsLowered table s t
map-lower_iff table [] [] = ((λ _. tt), (λ _. refl))
map-lower_iff table [] (d ∷ t) = ((λ e. cc), (λ h. absurd h))
map-lower_iff table (c ∷ s) [] = ((λ e. cc), (λ h. absurd h))
map-lower_iff table (c ∷ s) (d ∷ t) = (
  λ e.
      let parts : (lower table c ≡ d) × (map (lower table) s ≡ t) = ground arith in
      ((lower_iff table c d).0 parts.0, (map-lower_iff table s t).0 parts.1),
  λ (h, k).
      ap (λ x. x ∷ map (lower table) s) ((lower_iff table c d).1 h)
      ∙ ap (λ u. d ∷ u) ((map-lower_iff table s t).1 k),
)

-- The answer is the name, in letters of either case, with white space around it.
abbrev pub Says : (ℕ → ℕ) → Text → Text → Type 0
Says table response name =
    (p : Text) × (m : Text) × (q : Text) × (response ≡ p ++ (m ++ q))
    × IsSpaces p
    × IsSpaces q
    × (trim_space m ≡ m)
    × IsLowered table m name

normalized_iff :
    (table : ℕ → ℕ) (response name : Text)
    → (normalized table response ≡ name) ↔ Says table response name
unfolding normalized
normalized_iff table response name = (
  λ e.
      let (p, q, front, behind, whole) = trim_space-parts response in
      (
        p,
        trim_space response,
        q,
        whole,
        front,
        behind,
        trim_space-trim_space response,
        (map-lower_iff table (trim_space response) name).0 e,
      ),
  λ (p, m, q, whole, front, behind, trimmed, lowered).
      ap (normalized table) whole
      ∙ normalized-around table p m q front behind
      ∙ ap (map (lower table)) trimmed
      ∙ (map-lower_iff table m name).1 lowered,
)

-- An answer is read as one of the five intents exactly if it is that intent's name, in letters of
-- either case and with white space around it.
pub parse_intent_iff :
    (table : ℕ → ℕ) (response : Text) (i : Intent)
    → IsNamed i
    → (parse_intent table response ≡ i) ↔ Says table response (intent_text i)
parse_intent_iff table response i known = (
  λ e.
      (normalized_iff table response (intent_text i)).0
        (intent_of_sound (normalized table response) i known (rw parse_intent_lem at e)),
  λ h.
      parse_intent_lem table response
      ∙ ap intent_of ((normalized_iff table response (intent_text i)).1 h)
      ∙ intent_of-intent_text i known,
)

-- White space around the answer does not change how it is read.
pub parse_intent-around :
    (table : ℕ → ℕ) (p response q : Text)
    → IsSpaces p
    → IsSpaces q
    → parse_intent table (p ++ (response ++ q)) ≡ parse_intent table response
parse_intent-around table p response q hp hq =
    parse_intent_lem table (p ++ (response ++ q))
    ∙ ap intent_of (normalized-around table p response q hp hq)
    ∙ (rw parse_intent_lem)
