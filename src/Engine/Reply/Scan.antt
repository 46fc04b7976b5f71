-- ===== src/Engine/Reply/Scan.antt =====
-- How the scan for headers meets a heading, and how it passes other text.
use mathlib.Core.List.{append_assoc}
use ai_coworker.Prelude.{
  ℕ, suc, ◌+◌, ◌-◌, ◌≡◌, refl, ap, ◌∙◌, Bool, true, false, Option, none, some, [], ◌∷◌, ◌++◌, Text,
  text, ◌==◌, length, length-append, newline, strip_prefix, show_nat, show_nat-cons,
  show_nat-digits, All, is_digit, arith, if◌then◌else◌, ◌≤◌,
}
use ai_coworker.Engine.Reply.{
  is_re_space, drop_spaces, some_spaces, span_digits, some_digits, line_end, match_header,
  find_headers,
}

-- No line of the text begins with "---"; the flag tells that the text begins a line.
abbrev pub IsPlain : Bool → Text → Type 0
IsPlain bol [] = Unit
IsPlain bol (c ∷ t) =
    (bol ≡ true → strip_prefix (text "---") (c ∷ t) ≡ none) × IsPlain (c == newline) t

unfoldable pub heading : ℕ → Text
heading n = text "--- COMMENT " ++ (show_nat n ++ text " ---")

strip_dashes-append :
    (s r : Text)
    → strip_prefix (text "---") s ≡ none
    → strip_prefix (text "---") (s ++ newline ∷ r) ≡ none
unfolding strip_prefix
strip_dashes-append [] r e = refl
strip_dashes-append (a ∷ []) r e = ground arith
strip_dashes-append (a ∷ b ∷ []) r e = ground arith
strip_dashes-append (a ∷ b ∷ c ∷ s) r e = ground arith

match_header-none : (s : Text) → strip_prefix (text "---") s ≡ none → match_header s ≡ none
unfolding match_header
match_header-none s e = rw e

span_digits-append :
    (ds r : Text) → All (λ c. (48 ≤ c) × (c ≤ 57)) ds → span_digits (ds ++ 32 ∷ r) ≡ (ds, 32 ∷ r)
unfolding span_digits
span_digits-append [] r h = refl
span_digits-append (c ∷ ds) r ((lo, hi), h) =
    let digit : is_digit c ≡ true = ground arith in rw (span_digits-append ds r h, digit)

drop_spaces-digit : (c : ℕ) (t : Text) → 48 ≤ c → drop_spaces (c ∷ t) ≡ c ∷ t
unfolding drop_spaces
drop_spaces-digit c t h = let dark : is_re_space c ≡ false = ground arith in rw dark

some_digits-show_nat :
    (n : ℕ) (r : Text)
    → some_digits (span_digits (show_nat n ++ 32 ∷ r)) ≡ some (show_nat n, 32 ∷ r)
some_digits-show_nat n r =
    let (c, t, e) = show_nat-cons n in
    let split = span_digits-append (show_nat n) r (show_nat-digits n) in rw split (rw e)

drop_spaces-show_nat : (n : ℕ) (r : Text) → drop_spaces (show_nat n ++ r) ≡ show_nat n ++ r
drop_spaces-show_nat n r =
    let (c, t, e) = show_nat-cons n in
    let digits = rw e at (show_nat-digits n) in rw e (drop_spaces-digit c (t ++ r) digits.0.0)

line_end-newline :
    (c : ℕ) (r : Text) → is_re_space c ≡ false → line_end (newline ∷ c ∷ r) ≡ some (newline ∷ c ∷ r)
unfolding line_end
line_end-newline c r dark = rw dark

-- The heading of section `n`, at the end of a line, is matched with its number.
match_header-heading :
    (n c : ℕ) (r : Text)
    → is_re_space c ≡ false
    → match_header (heading n ++ newline ∷ c ∷ r) ≡ some (show_nat n, newline ∷ c ∷ r)
unfolding heading match_header strip_prefix drop_spaces some_spaces
match_header-heading n c r dark =
    rw (append_assoc, drop_spaces-show_nat, some_digits-show_nat) (rw (line_end-newline c r dark))

no_match :
    (bol : Bool) (s : Text)
    → (bol ≡ true → match_header s ≡ none)
    → ◌≡◌ {A = Option (Text × Text)} (if bol then match_header s else none) none
no_match true s h = h refl
no_match false s h = refl

match_header-newline : (r : Text) → match_header (newline ∷ r) ≡ none
unfolding match_header strip_prefix
match_header-newline r = refl

-- One character that begins no heading is passed.
find_headers-pass :
    (at c : ℕ) (bol : Bool) (t : Text)
    → (bol ≡ true → match_header (c ∷ t) ≡ none)
    → find_headers at 0 bol (c ∷ t) ≡ find_headers (suc at) 0 (c == newline) t
unfolding find_headers
find_headers-pass at c bol t h = rw (no_match bol (c ∷ t) h)

pub find_headers-newline :
    (at : ℕ) (bol : Bool) (r : Text)
    → find_headers at 0 bol (newline ∷ r) ≡ find_headers (suc at) 0 true r
find_headers-newline at bol r = find_headers-pass at newline bol r (λ _. match_header-newline r)

-- A text without headings is passed, up to the end of its last line.
pub find_headers-plain :
    (at : ℕ) (bol : Bool) (t r : Text)
    → IsPlain bol t
    → find_headers at 0 bol (t ++ newline ∷ r) ≡ find_headers (suc (at + length t)) 0 true r
find_headers-plain at bol [] r h =
    let same : suc at ≡ suc (at + 0) = omega arith in
    find_headers-newline at bol r ∙ ap (λ n. find_headers n 0 true r) same
find_headers-plain at bol (c ∷ t) r (h, k) =
    let same : suc (suc at + length t) ≡ suc (at + suc (length t)) = omega arith in
    find_headers-pass at c bol (t ++ newline ∷ r)
      (λ b. match_header-none _ (strip_dashes-append (c ∷ t) r (h b)))
    ∙ find_headers-plain (suc at) (c == newline) t r k
    ∙ ap (λ n. find_headers n 0 true r) same

-- The characters of a match are passed.
find_headers-skip :
    (at : ℕ) (bol : Bool) (s r : Text)
    → find_headers at (length s) bol (s ++ newline ∷ r)
      ≡ find_headers (suc (at + length s)) 0 true r
unfolding find_headers
find_headers-skip at bol [] r =
    let same : suc at ≡ suc (at + 0) = omega arith in
    find_headers-newline at bol r ∙ ap (λ n. find_headers n 0 true r) same
find_headers-skip at bol (c ∷ s) r =
    let same : suc (suc at + length s) ≡ suc (at + suc (length s)) = omega arith in
    find_headers-skip (suc at) (c == newline) s r ∙ ap (λ n. find_headers n 0 true r) same

-- A match is recorded, and the scan goes on behind its line.
find_headers-match :
    (at c : ℕ) (s r digits : Text)
    → match_header (c ∷ (s ++ newline ∷ r)) ≡ some (digits, newline ∷ r)
    → find_headers at 0 true (c ∷ (s ++ newline ∷ r))
      ≡ record { start = at; stop = at + suc (length s); number = digits }
        ∷ find_headers (suc (at + suc (length s))) 0 true r
unfolding find_headers
find_headers-match at c s r digits e =
    let long = length-append s (newline ∷ r) in
    let size : length (c ∷ (s ++ newline ∷ r)) - length (newline ∷ r) ≡ suc (length s) =
      omega (arith, long) in
    let rest : length (c ∷ (s ++ newline ∷ r)) - length (newline ∷ r) - 1 ≡ length s =
      omega (arith, long) in
    let next : suc (suc at + length s) ≡ suc (at + suc (length s)) = omega arith in
    rw (e, rest, size)
      (ap (λ ms. record { start = at; stop = at + suc (length s); number = digits } ∷ ms)
        (find_headers-skip (suc at) (c == newline) s r ∙ ap (λ n. find_headers n 0 true r) next))

-- A heading is found, and the scan goes on behind its line.
pub find_headers-heading :
    (at n c : ℕ) (r : Text)
    → is_re_space c ≡ false
    → find_headers at 0 true (heading n ++ newline ∷ c ∷ r)
      ≡ record { start = at; stop = at + length (heading n); number = show_nat n }
        ∷ find_headers (suc (at + length (heading n))) 0 true (c ∷ r)
unfolding heading
find_headers-heading at n c r dark =
    find_headers-match at b'-' (text "-- COMMENT " ++ (show_nat n ++ text " ---")) (c ∷ r)
      (show_nat n) (match_header-heading n c r dark)
