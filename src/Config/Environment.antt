-- ===== src/Config/Environment.antt =====
-- The names of the environment variables that Load of internal/config/config.go hands to koanf, and the
-- keys it makes of them. A name is in ASCII.
use ai_coworker.Prelude.{
  ℕ, ◌+◌, ◌-◌, Bool, true, false, Option, none, some, List, [], ◌∷◌, ◌++◌, ◌&&◌, map, Text, text,
  strip_prefix, leb, ◌==◌, if◌then◌else◌,
}

-- `strings.ToLower` and `strings.ToUpper`, by the byte.
unfoldable pub to_lower : ℕ → ℕ
to_lower c = if leb b'A' c && leb c b'Z' then c + 32 else c

unfoldable pub to_upper : ℕ → ℕ
to_upper c = if leb b'a' c && leb c b'z' then c - 32 else c

-- The byte in front of the first part; there always is one.
abbrev pub put : ℕ → List Text → List Text
put c [] = []
put c (p ∷ ps) = (c ∷ p) ∷ ps

-- `strings.Split(s, "_")`.
unfoldable pub split : Text → List Text
split [] = [] ∷ []
split (c ∷ t) = let rest = split t in if c == b'_' then [] ∷ rest else put c rest

-- `strings.Split(s, "__")`, after an underscore or not.
unfoldable pub split_double : Bool → Text → List Text
split_double false [] = [] ∷ []
split_double true [] = (b'_' ∷ []) ∷ []
split_double false (c ∷ t) = elim (c == b'_') [
  | true ↦ split_double true t
  | false ↦ put c (split_double false t)
]
split_double true (c ∷ t) = elim (c == b'_') [
  | true ↦ [] ∷ split_double false t
  | false ↦ put b'_' (put c (split_double false t))
]

-- `strings.Join`.
unfoldable pub join : Text → List Text → Text
join between [] = []
join between (p ∷ []) = p
join between (p ∷ q ∷ ps) = p ++ (between ++ join between (q ∷ ps))

unfoldable pub capitalized : Text → Text
unfolding to_upper
capitalized [] = []
capitalized (c ∷ t) = to_upper c ∷ t

abbrev pub all_but_first : List Text → List Text
all_but_first [] = []
all_but_first (p ∷ ps) = p ∷ map capitalized ps

unfoldable pub snake_to_camel : Text → Text
unfolding to_lower split join capitalized
snake_to_camel s = join [] (all_but_first (split (map to_lower s)))

abbrev pub env_prefix : Text
env_prefix = text "AI_COWORKER__"

-- `strings.TrimPrefix`.
abbrev pub without_prefix : Text → Text → Option Text → Text
without_prefix prefix s none = s
without_prefix prefix s (some rest) = rest

-- The key of a name without the prefix.
unfoldable pub path_of : Text → Text
unfolding split_double snake_to_camel join
path_of s = join (text ".") (map snake_to_camel (split_double false s))

unfoldable pub env_key : Text → Text
unfolding strip_prefix path_of
env_key s = path_of (without_prefix env_prefix s (strip_prefix env_prefix s))
