-- ===== src/Adapter/Mention.antt =====
-- What the adapters use of Go's `strings` package to take a mention out of a text.
use ai_coworker.Prelude.{
  ◌≡◌, ◌↔◌, ◌++◌, refl, ap, ◌∙◌, true, inl, inr, arith, Bool-cases, Option-cases, strip_prefix-some,
  strip_prefix-append, ℕ, zero, suc, ◌-◌, Bool, none, some, [], ◌∷◌, ◌||◌, Text, strip_prefix,
  is_some, length, if◌then◌else◌,
}

-- `strings.Contains`.
unfoldable pub contains : Text → Text → Bool
unfolding strip_prefix
contains [] sub = is_some (strip_prefix sub [])
contains (c ∷ t) sub = is_some (strip_prefix sub (c ∷ t)) || contains t sub

-- The text has the other in it.
abbrev pub Has : Text → Text → Type 0
Has t sub = (p : Text) × (q : Text) × (t ≡ p ++ (sub ++ q))

prefix-Has : (t sub : Text) → is_some (strip_prefix sub t) ≡ true → Has t sub
prefix-Has t sub h = elim (Option-cases (strip_prefix sub t)) [
  | inl nothing ↦ absurd (cc (rw nothing at h))
  | inr (q, found) ↦ ([], q, strip_prefix-some sub t q found)
]

contains-here : (t sub : Text) → is_some (strip_prefix sub t) ≡ true → contains t sub ≡ true
unfolding contains
contains-here [] sub h = h
contains-here (c ∷ t) sub h = rw h refl

contains-later : (c : ℕ) (t sub : Text) → contains t sub ≡ true → contains (c ∷ t) sub ≡ true
unfolding contains
contains-later c t sub h = ground arith

contains-Has : (t sub : Text) → contains t sub ≡ true → Has t sub
unfolding contains
contains-Has [] sub h = prefix-Has [] sub h
contains-Has (c ∷ t) sub h = elim (Bool-cases (is_some (strip_prefix sub (c ∷ t)))) [
  | inl here ↦ prefix-Has (c ∷ t) sub here
  | inr other ↦ let (p, q, e) = contains-Has t sub (ground arith) in (c ∷ p, q, ap (λ s. c ∷ s) e)
]

Has-contains : (p q sub : Text) → contains (p ++ (sub ++ q)) sub ≡ true
Has-contains [] q sub = contains-here (sub ++ q) sub (ap is_some (strip_prefix-append sub q))
Has-contains (c ∷ p) q sub = contains-later c (p ++ (sub ++ q)) sub (Has-contains p q sub)

pub contains_iff : (t sub : Text) → (contains t sub ≡ true) ↔ Has t sub
contains_iff t sub =
    (contains-Has t sub, λ (p, q, e). ap (λ s. contains s sub) e ∙ Has-contains p q sub)

-- From left to right, past the characters of the last occurrence.
unfoldable pub removed : Text → ℕ → Text → Text
unfolding strip_prefix
removed sub skip [] = []
removed sub zero (c ∷ t) =
    let here = removed sub (length sub - 1) t in
    let kept = removed sub 0 t in if is_some (strip_prefix sub (c ∷ t)) then here else c ∷ kept
removed sub (suc skip) (c ∷ t) = removed sub skip t

-- `strings.ReplaceAll(t, sub, "")`, of a `sub` that is not empty.
unfoldable pub remove_all : Text → Text → Text
unfolding removed
remove_all sub t = removed sub 0 t

-- `strings.Replace(t, sub, "", 1)`.
unfoldable pub remove_first : Text → Text → Text
unfolding strip_prefix
remove_first sub [] = []
remove_first sub (c ∷ t) =
    let later = c ∷ remove_first sub t in
    elim (strip_prefix sub (c ∷ t)) [ some rest ↦ rest | none ↦ later ]
