-- ===== src/Engine/Reply/RoundTrip.antt =====
-- An answer in the format that the merged prompt asks for is read back section by section.
use mathlib.Core.List.{append_assoc}
use ai_coworker.Prelude.{
  ℕ, suc, ◌+◌, ◌-◌, ◌<◌, ◌≡◌, refl, sym, ap, subst, ◌∙◌, true, false, Option, none, some, List, [],
  ◌∷◌, ◌++◌, Text, ◌==◌, length, length-append, take, drop, newline, show_nat, All, atoi,
  atoi-show_nat, int_limit, in_pos, is_space, trim_space, ℤ, arith, if◌then◌else◌,
}
use ai_coworker.Prelude.Trim.{trim_space-around}
use ai_coworker.Engine.Reply.{
  is_re_space, Match, find_headers, slice, Responses, same_int, find_response, put_response,
  content_end, add_response,
}
use ai_coworker.Engine.Reply.Scan.{
  IsPlain, heading, find_headers-newline, find_headers-plain, find_headers-heading,
}

-- The body of a section: trimmed, not empty, and no line of it begins with "---".
pub record IsBody (b : Text) : Type 0 where
  pub trimmed : trim_space b ≡ b
  pub plain : IsPlain true b
  pub begins : (c : ℕ) × (t : Text) × (b ≡ c ∷ t) × (is_re_space c ≡ false)

-- A section, as the prompt asks for it.
unfoldable pub section : ℕ → Text → Text
section n b = heading n ++ newline ∷ (b ++ newline ∷ newline ∷ [])

-- The sections from number `n` on.
unfoldable pub sections : ℕ → List Text → Text
sections n [] = []
sections n (b ∷ bs) = section n b ++ sections (suc n) bs

-- The matches that the scan finds, from a position on.
unfoldable pub headers : ℕ → ℕ → List Text → List Match
headers at n [] = []
headers at n (b ∷ bs) =
    record { start = at; stop = at + length (heading n); number = show_nat n }
    ∷ headers (at + length (section n b)) (suc n) bs

length-section : (n : ℕ) (b : Text) → length (section n b) ≡ length (heading n) + length b + 3
unfolding section
length-section n b = omega (
  arith,
  length-append (heading n) (newline ∷ (b ++ newline ∷ newline ∷ [])),
  length-append b (newline ∷ newline ∷ []),
)

section-append :
    (n : ℕ) (b r : Text) → section n b ++ r ≡ heading n ++ newline ∷ (b ++ newline ∷ newline ∷ r)
unfolding section
section-append n b r = simp append_assoc

section_split :
    (n : ℕ) (b r : Text)
    → section n b ++ r ≡ heading n ++ ((newline ∷ (b ++ newline ∷ newline ∷ [])) ++ r)
unfolding section
section_split n b r = append_assoc (heading n) (newline ∷ (b ++ newline ∷ newline ∷ [])) r

find_headers-nil : (at : ℕ) → find_headers at 0 true [] ≡ []
unfolding find_headers
find_headers-nil at = refl

abbrev pub or_else : Option Text → Option Text → Option Text
or_else none o = o
or_else (some a) o = some a

find_headers-section :
    (at n : ℕ) (b r : Text)
    → IsBody b
    → find_headers at 0 true (section n b ++ r)
      ≡ record { start = at; stop = at + length (heading n); number = show_nat n }
        ∷ find_headers (at + length (section n b)) 0 true r
find_headers-section at n b r body =
    let (c, t, begins, dark) = body.begins in
    let h = length (heading n) in
    let first = find_headers-heading at n c (t ++ newline ∷ newline ∷ r) dark in
    let next : suc (suc (suc (at + h) + length b)) ≡ at + length (section n b) =
      omega (arith, length-section n b) in
    let later =
      find_headers-plain (suc (at + h)) true b (newline ∷ r) body.plain
      ∙ find_headers-newline (suc (suc (at + h) + length b)) true r
      ∙ ap (λ k. find_headers k 0 true r) next in
    ap (find_headers at 0 true) (section-append n b r)
    ∙ subst
        (λ x.
          find_headers at 0 true (heading n ++ newline ∷ (x ++ newline ∷ newline ∷ r))
          ≡ record { start = at; stop = at + h; number = show_nat n }
            ∷ find_headers (suc (at + h)) 0 true (x ++ newline ∷ newline ∷ r))
        (sym begins) first
    ∙ ap (λ ms. record { start = at; stop = at + h; number = show_nat n } ∷ ms) later

pub find_headers-sections :
    (at n : ℕ) (bs : List Text)
    → All IsBody bs
    → find_headers at 0 true (sections n bs) ≡ headers at n bs
unfolding sections headers
find_headers-sections at n [] h = find_headers-nil at
find_headers-sections at n (b ∷ bs) (body, h) =
    find_headers-section at n b (sections (suc n) bs) body
    ∙ ap (λ ms. record { start = at; stop = at + length (heading n); number = show_nat n } ∷ ms)
        (find_headers-sections (at + length (section n b)) (suc n) bs h)

take-length : (m z : Text) → take (length m) (m ++ z) ≡ m
take-length [] z = refl
take-length (c ∷ m) z = ap (λ t. c ∷ t) (take-length m z)

drop-length : (a z : Text) → drop (length a) (a ++ z) ≡ z
drop-length [] z = refl
drop-length (c ∷ a) z = drop-length a z

-- The part of a text between two positions.
slice-middle :
    (a m z : Text) (i j : ℕ)
    → i ≡ length a
    → j ≡ length a + length m
    → slice i j (a ++ (m ++ z)) ≡ m
unfolding slice
slice-middle a m z i j p q =
    let size : j - i ≡ length m = omega arith in rw (size, p, drop-length) (take-length m z)

IsSpaces-newlines : (trim_space (newline ∷ []) ≡ []) × (is_space newline ≡ true)
unfolding trim_space is_space
IsSpaces-newlines = (refl, refl)

-- What is collected for a section is its body.
module _ (output a : Text) (n : ℕ) (b : Text) (bs : List Text) (body : IsBody b)
    (e : output ≡ a ++ (section n b ++ sections (suc n) bs)) where
  abbrev content : Text
  content = newline ∷ (b ++ newline ∷ newline ∷ [])

  content_end-headers :
      (cs : List Text)
      → cs ≡ bs
      → content_end output (headers (length a + length (section n b)) (suc n) cs)
        ≡ length a + length (section n b)
  unfolding headers sections
  content_end-headers (c ∷ cs) same = refl
  content_end-headers [] same =
      let whole : output ≡ a ++ (section n b ++ []) =
        subst (λ ds. output ≡ a ++ (section n b ++ sections (suc n) ds)) (sym same) e in
      ap length whole
      ∙ (omega (arith, length-append a (section n b ++ []), length-append (section n b) []))

  slice-content :
      slice (length a + length (heading n)) (length a + length (section n b)) output ≡ content
  slice-content =
      let parts : output ≡ (a ++ heading n) ++ (content ++ sections (suc n) bs) =
        e
        ∙ ap (λ t. a ++ t) (section_split n b (sections (suc n) bs))
        ∙ sym (append_assoc a (heading n) (content ++ sections (suc n) bs)) in
      rw parts (
        slice-middle (a ++ heading n) content (sections (suc n) bs) _ _
          (sym (length-append a (heading n)))
          (omega (
            arith,
            length-append a (heading n),
            length-section n b,
            length-append b (newline ∷ newline ∷ []),
          )))

  trim_space-content : trim_space content ≡ b
  trim_space-content =
      let s = IsSpaces-newlines.1 in
      trim_space-around (newline ∷ []) b (newline ∷ newline ∷ []) (s, tt) (s, (s, tt))
      ∙ body.trimmed

  pub add_response-section :
      (rs : Responses)
      → n < int_limit
      → add_response
          (atoi (show_nat n))
          (trim_space (
            slice
              (length a + length (heading n))
              (content_end output (headers (length a + length (section n b)) (suc n) bs))
              output))
          rs
        ≡ put_response (ℤ.pos n) b rs
  add_response-section rs fits =
      let number : in_pos (some n) ≡ some (ℤ.pos n) = ground arith in
      rw (content_end-headers bs refl, slice-content, trim_space-content, atoi-show_nat, number)

pub find_response-put_response :
    (i j : ℕ) (r : Text) (rs : Responses)
    → find_response (ℤ.pos j) (put_response (ℤ.pos i) r rs)
      ≡ (if i == j then some r else find_response (ℤ.pos j) rs)
unfolding find_response put_response same_int
find_response-put_response i j r [] = refl
find_response-put_response i j r ((ℤ.pos k, s) ∷ rs) =
    ground (arith, find_response-put_response i j r rs)
find_response-put_response i j r ((ℤ.negsuc k, s) ∷ rs) = find_response-put_response i j r rs
