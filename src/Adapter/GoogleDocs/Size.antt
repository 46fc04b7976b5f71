-- ===== src/Adapter/GoogleDocs/Size.antt =====
-- The limit on a document's context: parseContentMaxSize of
-- internal/adapter/googledocs/googledocs.go, with the wrap-around of int64.
use ai_coworker.Prelude.{
  ℕ, suc, ◌-◌, ◌*◌, ◌%◌, ◌^◌, ◌≤◌, ◌<◌, ◌≡◌, ◌≢◌, refl, sym, ap, ◌∙◌, false, Option, none, some, [],
  ◌∷◌, ◌++◌, arith, Text, text, text_eq, text_eq_iff, text_eq_refl, cut_suffix, is_empty, is_space,
  length, length-append, ltb, ℤ, FitsInt, int_limit, itoa, atoi, atoi-itoa, show_nat, show_nat-cons,
  show_nat-digits, trim_space, trim_left, trim_right, Bool-cases, inl, inr, if◌then◌else◌,
}
use mathlib.Core.List.{append_assoc}
use ai_coworker.Store.{Error, fault, wrap, Result, ok, err}

-- The 64 bits of a number, and the number of 64 bits.
abbrev pub word_of : ℤ → ℕ
word_of (ℤ.pos n) = n % 2 ^ 64
word_of (ℤ.negsuc n) = 2 ^ 64 - 1 - n % 2 ^ 64

abbrev pub signed : ℕ → ℤ
signed w = if ltb w int_limit then ℤ.pos w else ℤ.negsuc (2 ^ 64 - 1 - w)

-- `*` on int64.
unfoldable pub times : ℤ → ℕ → ℤ
times z m = signed (word_of z * m % 2 ^ 64)

-- `quote` is the verb %q of fmt, `refusal` the error of `strconv.ParseInt` on a text.
module _ (quote : Text → Text) (refusal : Text → Error) where
  abbrev pub sized : Text → ℕ → Option ℤ → Result ℤ
  sized s multiplier (some n) = ok (times n multiplier)
  sized s multiplier none = err (wrap (text "parsing size value " ++ quote s) (refusal s))

  abbrev pub in_kilobytes : Text → Option Text → Result ℤ
  in_kilobytes s (some digits) = sized digits 1024 (atoi digits)
  in_kilobytes s none =
      err (fault (text "unsupported size unit in " ++ (quote s ++ text " (use KB or MB)")))

  abbrev pub in_units : Text → Option Text → Option Text → Result ℤ
  in_units s (some digits) kilo = sized digits (1024 * 1024) (atoi digits)
  in_units s none kilo = in_kilobytes s kilo

  abbrev pub size_of : Text → Result ℤ
  size_of s =
      if is_empty s
      then err (fault (text "empty size value"))
      else in_units s (cut_suffix s (text "MB")) (cut_suffix s (text "KB"))

  unfoldable pub parse_content_max_size : Text → Result ℤ
  unfolding text_eq trim_space cut_suffix times
  parse_content_max_size s = if text_eq s (text "0") then ok (ℤ.pos 0) else size_of (trim_space s)

text_eq-length : (s t : Text) → length s ≢ length t → text_eq s t ≡ false
text_eq-length s t h = elim (Bool-cases (text_eq s t)) [
  | inr other ↦ other
  | inl same ↦ absurd (h (ap length ((text_eq_iff s t).0 same)))
]

cut_suffix-append : (t : Text) (a : ℕ) (s : Text) → cut_suffix (t ++ a ∷ s) (a ∷ s) ≡ some t
unfolding cut_suffix
cut_suffix-append [] a s = rw (text_eq_refl (a ∷ s)) refl
cut_suffix-append (c ∷ t) a s =
    let longer : text_eq (c ∷ t ++ a ∷ s) (a ∷ s) ≡ false =
      text_eq-length (c ∷ t ++ a ∷ s) (a ∷ s)
        (λ e. absurd (omega (arith, e, length-append t (a ∷ s)))) in
    rw (longer, cut_suffix-append t a s) refl

kilobytes-other : cut_suffix (text "KB") (text "MB") ≡ none
unfolding cut_suffix text_eq
kilobytes-other = refl

-- A size in kilobytes is none in megabytes.
cut_suffix-other : (t : Text) → cut_suffix (t ++ text "KB") (text "MB") ≡ none
unfolding cut_suffix
cut_suffix-other [] = kilobytes-other
cut_suffix-other (c ∷ t) =
    let longer : text_eq (c ∷ t ++ text "KB") (text "MB") ≡ false =
      text_eq-length (c ∷ t ++ text "KB") (text "MB")
        (λ e. absurd (omega (arith, e, length-append t (text "KB")))) in
    rw (longer, cut_suffix-other t) refl

is_empty-append : (t : Text) (b : ℕ) → is_empty (t ++ b ∷ []) ≡ false
is_empty-append [] b = refl
is_empty-append (c ∷ t) b = refl

trim_right-last : (t : Text) (b : ℕ) → is_space b ≡ false → trim_right (t ++ b ∷ []) ≡ t ++ b ∷ []
unfolding trim_right
trim_right-last [] b h = rw h refl
trim_right-last (c ∷ t) b h = rw (trim_right-last t b h, is_empty-append t b) (ground arith)

-- A text with neither white space in front nor behind.
trim_space-between :
    (c : ℕ) (t : Text) (b : ℕ)
    → is_space c ≡ false
    → is_space b ≡ false
    → trim_space (c ∷ t ++ b ∷ []) ≡ c ∷ t ++ b ∷ []
unfolding trim_space trim_left
trim_space-between c t b h k = rw h (trim_right-last (c ∷ t) b k)

is_space-digit : (c : ℕ) → 48 ≤ c → c ≤ 57 → is_space c ≡ false
unfolding is_space
is_space-digit c h k = ground arith

is_space-known : (is_space b'-' ≡ false) × (is_space b'B' ≡ false)
unfolding is_space
is_space-known = (refl, refl)

-- A printed number begins with a digit or with the sign.
itoa-cons : (z : ℤ) → (c : ℕ) × (t : Text) × (itoa z ≡ c ∷ t) × (is_space c ≡ false)
unfolding itoa
itoa-cons (ℤ.pos n) =
    let (c, t, e) = show_nat-cons n in
    let digits = rw e at (show_nat-digits n) in (c, t, e, is_space-digit c digits.0.0 digits.0.1)
itoa-cons (ℤ.negsuc n) = (b'-', show_nat (suc n), refl, is_space-known.0)

-- A printed number with its unit is neither trimmed nor the text "0".
trim_space-itoa : (z : ℤ) (u : ℕ) → trim_space (itoa z ++ u ∷ text "B") ≡ itoa z ++ u ∷ text "B"
trim_space-itoa z u =
    let (c, t, e, shown) = itoa-cons z in
    let split : c ∷ t ++ u ∷ text "B" ≡ c ∷ (t ++ u ∷ []) ++ text "B" =
      ap (λ s. c ∷ s) (sym (append_assoc t (u ∷ []) (text "B"))) in
    rw (e, split) (trim_space-between c (t ++ u ∷ []) b'B' shown is_space-known.1)

module _ (quote : Text → Text) (refusal : Text → Error) where
  parse_content_max_size-size_of :
      (z : ℤ) (u : ℕ)
      → parse_content_max_size quote refusal (itoa z ++ u ∷ text "B")
        ≡ size_of quote refusal (itoa z ++ u ∷ text "B")
  unfolding parse_content_max_size
  parse_content_max_size-size_of z u =
      let (c, t, e, shown) = itoa-cons z in
      let longer : text_eq (itoa z ++ u ∷ text "B") (text "0") ≡ false =
        text_eq-length (itoa z ++ u ∷ text "B") (text "0")
          (λ k. absurd (omega (arith, k, length-append (itoa z) (u ∷ text "B")))) in
      rw (longer, trim_space-itoa z u) refl

  is_empty-itoa : (z : ℤ) (s : Text) → is_empty (itoa z ++ s) ≡ false
  is_empty-itoa z s = let (c, t, e, shown) = itoa-cons z in rw e refl

  -- Every number of 64 bits is read with its unit, and multiplied modulo 2 ^ 64.
  pub parse_content_max_size-itoa :
      (z : ℤ)
      → FitsInt z
      → (parse_content_max_size quote refusal (itoa z ++ text "KB") ≡ ok (times z 1024))
        × (parse_content_max_size quote refusal (itoa z ++ text "MB") ≡ ok (times z (1024 * 1024)))
  parse_content_max_size-itoa z fits = (
    parse_content_max_size-size_of z b'K'
        ∙ rw
            (
              is_empty-itoa z (text "KB"),
              cut_suffix-other (itoa z),
              cut_suffix-append (itoa z) b'K' (text "B"),
              atoi-itoa z fits,
            )
            refl,
    parse_content_max_size-size_of z b'M'
        ∙ rw
            (
              is_empty-itoa z (text "MB"),
              cut_suffix-append (itoa z) b'M' (text "B"),
              atoi-itoa z fits,
            )
            refl,
  )

-- Within the range nothing wraps.
pub times-pos : (n m : ℕ) → n * m < int_limit → n < int_limit → times (ℤ.pos n) m ≡ ℤ.pos (n * m)
unfolding times
times-pos n m h k =
    let small : n % 2 ^ 64 ≡ n = omega arith in
    let fits : n * m % 2 ^ 64 ≡ n * m = omega arith in rw (small, fits) (ground arith)

pub times-negsuc :
    (n : ℕ) → suc n * 1024 ≤ int_limit → times (ℤ.negsuc n) 1024 ≡ ℤ.negsuc (suc n * 1024 - 1)
unfolding times
times-negsuc n h =
    let word : (2 ^ 64 - 1 - n % 2 ^ 64) * 1024 % 2 ^ 64 ≡ 2 ^ 64 - suc n * 1024 = omega arith in
    rw word (ground arith)

-- A size of more than 2 ^ 63 bytes wraps to a negative one.
pub times-wraps :
    (n : ℕ)
    → int_limit ≤ n * 1024
    → n * 1024 < 2 ^ 64
    → times (ℤ.pos n) 1024 ≡ ℤ.negsuc (2 ^ 64 - 1 - n * 1024)
unfolding times
times-wraps n h k =
    let word : n % 2 ^ 64 * 1024 % 2 ^ 64 ≡ n * 1024 = omega arith in rw word (ground arith)
