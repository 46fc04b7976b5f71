-- ===== src/Prelude/Trim.antt =====
-- Laws of `strings.TrimSpace`.
use mathlib.Core.Path.{◌≡◌, refl, sym, ap, ◌∙◌}
use mathlib.Core.Logic.{inl, inr}
use Prim.Native.Nat.{ℕ}
use mathlib.Core.Bool.{true, ◌&&◌}
use mathlib.Core.List.{[], ◌∷◌, ◌++◌}
use ai_coworker.Prelude.Tests.{Bool-cases, if◌then◌else◌}
use ai_coworker.Prelude.Lists.{All}
use ai_coworker.Prelude.Texts.{Text, is_empty, is_space, trim_left, trim_right, trim_space}

abbrev pub IsSpaces : Text → Type 0
IsSpaces t = All (λ c. is_space c ≡ true) t

trim_left-spaces : (p t : Text) → IsSpaces p → trim_left (p ++ t) ≡ trim_left t
unfolding trim_left
trim_left-spaces [] t h = refl
trim_left-spaces (c ∷ p) t (s, h) = rw s (trim_left-spaces p t h)

trim_right-all : (q : Text) → IsSpaces q → trim_right q ≡ []
unfolding trim_right
trim_right-all [] h = refl
trim_right-all (c ∷ q) (s, h) = rw (s, trim_right-all q h)

trim_right-spaces : (t q : Text) → IsSpaces q → trim_right (t ++ q) ≡ trim_right t
unfolding trim_right
trim_right-spaces [] q h = trim_right-all q h
trim_right-spaces (c ∷ t) q h = rw (trim_right-spaces t q h)

trim_left-all : (q : Text) → IsSpaces q → trim_left q ≡ []
unfolding trim_left
trim_left-all [] h = refl
trim_left-all (c ∷ q) (s, h) = rw s (trim_left-all q h)

trim-left_then_right :
    (t q : Text) → IsSpaces q → trim_right (trim_left (t ++ q)) ≡ trim_right (trim_left t)
unfolding trim_left
trim-left_then_right [] q h = ap trim_right (trim_left-all q h)
trim-left_then_right (c ∷ t) q h = elim (Bool-cases (is_space c)) [
  | inl s ↦ rw s (trim-left_then_right t q h)
  | inr n ↦ rw n (trim_right-spaces (c ∷ t) q h)
]

trim_space_lem : (t : Text) → trim_space t ≡ trim_right (trim_left t)
unfolding trim_space
trim_space_lem t = refl

-- White space around a text does not matter.
pub trim_space-around :
    (p t q : Text) → IsSpaces p → IsSpaces q → trim_space (p ++ (t ++ q)) ≡ trim_space t
trim_space-around p t q hp hq =
    rw (trim_space_lem, trim_space_lem t)
      (ap trim_right (trim_left-spaces p (t ++ q) hp) ∙ trim-left_then_right t q hq)

trim_left-parts : (t : Text) → (p : Text) × IsSpaces p × (t ≡ p ++ trim_left t)
unfolding trim_left
trim_left-parts [] = ([], tt, refl)
trim_left-parts (c ∷ t) = elim (Bool-cases (is_space c)) [
  | inl s ↦ let (p, spaces, e) = trim_left-parts t in (c ∷ p, (s, spaces), rw s (ap (λ u. c ∷ u) e))
  | inr n ↦ ([], tt, rw n refl)
]

-- What `trim_right` makes of a character and the rest, of which it leaves `rest`.
abbrev kept_before : ℕ → Text → Text
kept_before c rest = if is_space c && is_empty rest then [] else c ∷ rest

kept_before-parts :
    (c : ℕ) (t rest q : Text)
    → IsSpaces q
    → t ≡ rest ++ q
    → (r : Text) × IsSpaces r × (c ∷ t ≡ kept_before c rest ++ r)
kept_before-parts c t [] q spaces e = elim (Bool-cases (is_space c)) [
  | inl s ↦ (c ∷ q, (s, spaces), rw s (ap (λ u. c ∷ u) e))
  | inr n ↦ (q, spaces, rw n (ap (λ u. c ∷ u) e))
]
kept_before-parts c t (d ∷ rest) q spaces e = elim (Bool-cases (is_space c)) [
  | inl s ↦ (q, spaces, rw s (ap (λ u. c ∷ u) e))
  | inr n ↦ (q, spaces, rw n (ap (λ u. c ∷ u) e))
]

trim_right-parts : (t : Text) → (q : Text) × IsSpaces q × (t ≡ trim_right t ++ q)
unfolding trim_right
trim_right-parts [] = ([], tt, refl)
trim_right-parts (c ∷ t) =
    let (q, spaces, e) = trim_right-parts t in kept_before-parts c t (trim_right t) q spaces e

-- A text is its trimmed part with white space around it.
pub trim_space-parts :
    (t : Text) → (p : Text) × (q : Text) × IsSpaces p × IsSpaces q × (t ≡ p ++ (trim_space t ++ q))
trim_space-parts t =
    let (p, front, e) = trim_left-parts t in
    let (q, behind, k) = trim_right-parts (trim_left t) in
    (p, q, front, behind, e ∙ ap (λ u. p ++ u) (k ∙ ap (λ u. u ++ q) (sym (trim_space_lem t))))

pub trim_space-trim_space : (t : Text) → trim_space (trim_space t) ≡ trim_space t
trim_space-trim_space t =
    let (p, q, front, behind, e) = trim_space-parts t in
    sym (trim_space-around p (trim_space t) q front behind) ∙ sym (ap trim_space e)
