-- ===== src/Config/Keys.antt =====
-- Every key of the configuration has a variable of the environment.
use ai_coworker.Prelude.{
  ℕ, ◌+◌, ◌≡◌, refl, sym, ap, ◌∙◌, Bool, true, false, List, [], ◌∷◌, ◌++◌, ◌&&◌, ◌||◌, map, All,
  Text, text, strip_prefix, leb, ◌==◌, arith, Bool-cases, inl, inr, if◌then◌else◌,
}
use mathlib.Core.List.{append-nil}
use ai_coworker.Config.Environment.{
  to_lower, to_upper, put, split, split_double, join, capitalized, snake_to_camel, env_prefix,
  path_of, env_key,
}

abbrev pub is_upper : ℕ → Bool
is_upper c = leb b'A' c && leb c b'Z'

-- A letter or a digit.
abbrev pub IsAlnum : ℕ → Type 0
IsAlnum c = (is_upper c || leb b'a' c && leb c b'z' || leb b'0' c && leb c b'9') ≡ true

-- The name of a key in the environment: `apiKey` is `API_KEY`.
unfoldable pub env_name : Text → Text
unfolding to_upper
env_name [] = []
env_name (c ∷ t) =
    let rest = env_name t in if is_upper c then b'_' ∷ c ∷ rest else to_upper c ∷ rest

-- The name in lower case.
unfoldable snake : Text → Text
snake [] = []
snake (c ∷ t) = let rest = snake t in if is_upper c then b'_' ∷ (c + 32) ∷ rest else c ∷ rest

to_lower-to_upper : (c : ℕ) → IsAlnum c → is_upper c ≡ false → to_lower (to_upper c) ≡ c
unfolding to_lower to_upper
to_lower-to_upper c h k = ground arith

to_lower-upper : (c : ℕ) → is_upper c ≡ true → to_lower c ≡ c + 32
unfolding to_lower
to_lower-upper c h = rw h refl

to_upper-lower : (c : ℕ) → is_upper c ≡ true → to_upper (c + 32) ≡ c
unfolding to_upper
to_upper-lower c h = ground arith

to_lower-underscore : to_lower b'_' ≡ b'_'
unfolding to_lower
to_lower-underscore = refl

map-env_name : (k : Text) → All IsAlnum k → map to_lower (env_name k) ≡ snake k
unfolding env_name snake
map-env_name [] h = refl
map-env_name (c ∷ t) (here, h) = elim (Bool-cases (is_upper c)) [
  | inl upper ↦ rw (upper, to_lower-underscore, to_lower-upper c upper, map-env_name t h) refl
  | inr other ↦ rw (other, to_lower-to_upper c here other, map-env_name t h) refl
]

other_byte : (c : ℕ) → IsAlnum c → (c == b'_') ≡ false
other_byte c h = ground arith

lowered_byte : (c : ℕ) → is_upper c ≡ true → (c + 32 == b'_') ≡ false
lowered_byte c h = ground arith

-- The parts of a name, whose first letters but the first are put in upper case again.
Parts : Text → Type 0
Parts k =
    (p : Text) × (ps : List Text) × (split (snake k) ≡ p ∷ ps)
    × (p ++ join [] (map capitalized ps) ≡ k)

join-cons : (p : Text) (ps : List Text) → join [] (p ∷ ps) ≡ p ++ join [] ps
unfolding join
join-cons [] [] = refl
join-cons (c ∷ p) [] = ap (λ t. c ∷ t) (join-cons p [])
join-cons p (q ∷ ps) = refl

split-snake : (k : Text) → All IsAlnum k → Parts k
unfolding Parts split snake capitalized join
split-snake [] h = ([], [], refl, refl)
split-snake (c ∷ t) (here, h) =
    let (p, ps, parts, whole) = split-snake t h in
    elim (Bool-cases (is_upper c)) [
      | inl upper ↦ (
        [],
        ((c + 32) ∷ p) ∷ ps,
        rw (upper, lowered_byte c upper, parts) refl,
        join-cons (capitalized ((c + 32) ∷ p)) (map capitalized ps)
            ∙ rw (to_upper-lower c upper) (ap (λ s. c ∷ s) whole),
      )
      | inr other ↦ (c ∷ p, ps, rw (other, other_byte c here, parts) refl, ap (λ s. c ∷ s) whole)
    ]

snake_to_camel-env_name : (k : Text) → All IsAlnum k → snake_to_camel (env_name k) ≡ k
unfolding snake_to_camel Parts
snake_to_camel-env_name k h =
    let (p, ps, parts, whole) = split-snake k h in
    rw (map-env_name k h, parts) (join-cons p (map capitalized ps) ∙ whole)

-- The text in front of the first part.
abbrev in_front : Text → List Text → List Text
in_front s [] = []
in_front s (p ∷ ps) = (s ++ p) ∷ ps

put-in_front : (c : ℕ) (s : Text) (ps : List Text) → put c (in_front s ps) ≡ in_front (c ∷ s) ps
put-in_front c s [] = refl
put-in_front c s (p ∷ ps) = refl

in_front-nil : (ps : List Text) → ps ≡ in_front [] ps
in_front-nil [] = refl
in_front-nil (p ∷ ps) = refl

upper_byte : (c : ℕ) → IsAlnum c → (to_upper c == b'_') ≡ false
unfolding to_upper
upper_byte c h = ground arith

env_name-upper : (c : ℕ) (t : Text) → is_upper c ≡ true → env_name (c ∷ t) ≡ b'_' ∷ c ∷ env_name t
unfolding env_name
env_name-upper c t h = rw h refl

env_name-other :
    (c : ℕ) (t : Text) → is_upper c ≡ false → env_name (c ∷ t) ≡ to_upper c ∷ env_name t
unfolding env_name
env_name-other c t h = rw h refl

split_double-other :
    (c : ℕ) (t : Text)
    → (c == b'_') ≡ false
    → split_double false (c ∷ t) ≡ put c (split_double false t)
unfolding split_double
split_double-other c t h = rw (split_double, h) refl

split_double-held :
    (c : ℕ) (t : Text)
    → (c == b'_') ≡ false
    → split_double false (b'_' ∷ c ∷ t) ≡ put b'_' (put c (split_double false t))
unfolding split_double
split_double-held c t h = rw (split_double, h) refl

env_name-nil : env_name [] ≡ []
unfolding env_name
env_name-nil = refl

-- The underscores of a name stand alone.
split_double-env_name :
    (k rest : Text)
    → All IsAlnum k
    → split_double false (env_name k ++ rest) ≡ in_front (env_name k) (split_double false rest)
split_double-env_name [] rest h = rw env_name-nil (in_front-nil (split_double false rest))
split_double-env_name (c ∷ t) rest (here, h) =
    let put_on = put-in_front c (env_name t) (split_double false rest) in
    elim (Bool-cases (is_upper c)) [
      | inl upper ↦ rw (env_name-upper c t upper) (
          split_double-held c (env_name t ++ rest) (other_byte c here)
          ∙ rw (split_double-env_name t rest h)
              (ap (put b'_') put_on ∙ put-in_front b'_' (c ∷ env_name t) (split_double false rest)))
      | inr other ↦ rw (env_name-other c t other) (
          split_double-other (to_upper c) (env_name t ++ rest) (upper_byte c here)
          ∙ rw (split_double-env_name t rest h)
              (put-in_front (to_upper c) (env_name t) (split_double false rest)))
    ]

-- The name of a path of keys, without the prefix: `github.appId` is `GITHUB__APP_ID`.
unfoldable pub env_path : Text → List Text → Text
unfolding env_name
env_path k [] = env_name k
env_path k (l ∷ ks) = env_name k ++ b'_' ∷ b'_' ∷ env_path l ks

split_double-end : split_double false [] ≡ [] ∷ []
unfolding split_double
split_double-end = refl

split_double-pair : (t : Text) → split_double false (b'_' ∷ b'_' ∷ t) ≡ [] ∷ split_double false t
unfolding split_double
split_double-pair t = refl

split_double-env_path :
    (k : Text) (ks : List Text)
    → All (All IsAlnum) (k ∷ ks)
    → split_double false (env_path k ks) ≡ map env_name (k ∷ ks)
unfolding env_path
split_double-env_path k [] (here, h) =
    ap (split_double false) (sym (append-nil (env_name k)))
    ∙ split_double-env_name k [] here
    ∙ rw (split_double-end, append-nil (env_name k)) refl
split_double-env_path k (l ∷ ks) (here, h) =
    split_double-env_name k (b'_' ∷ b'_' ∷ env_path l ks) here
    ∙ rw (split_double-pair (env_path l ks), append-nil (env_name k))
        (ap (λ ps. env_name k ∷ ps) (split_double-env_path l ks h))

map-snake_to_camel :
    (ks : List Text) → All (All IsAlnum) ks → map snake_to_camel (map env_name ks) ≡ ks
map-snake_to_camel [] h = refl
map-snake_to_camel (k ∷ ks) (here, h) =
    rw (snake_to_camel-env_name k here, map-snake_to_camel ks h) refl

env_key-prefix : (t : Text) → env_key (env_prefix ++ t) ≡ path_of t
unfolding env_key strip_prefix
env_key-prefix t = refl

path_of-env_path :
    (k : Text) (ks : List Text)
    → All (All IsAlnum) (k ∷ ks)
    → path_of (env_path k ks) ≡ join (text ".") (k ∷ ks)
unfolding path_of
path_of-env_path k ks h =
    ap (λ ps. join (text ".") (map snake_to_camel ps)) (split_double-env_path k ks h)
    ∙ ap (join (text ".")) (map-snake_to_camel (k ∷ ks) h)

-- Every path of keys that are made of letters and digits in camel case has a variable: its keys in
-- upper case, with an underscore before each letter that was so, joined by two underscores
-- and put after the prefix, are read as the path joined by dots.
pub env_key-env_path :
    (k : Text) (ks : List Text)
    → All (All IsAlnum) (k ∷ ks)
    → env_key (env_prefix ++ env_path k ks) ≡ join (text ".") (k ∷ ks)
env_key-env_path k ks h = env_key-prefix (env_path k ks) ∙ path_of-env_path k ks h
