-- ===== src/Prelude/Texts.antt =====
-- Text as a list of code points (its bytes, where it is ASCII), and what the program uses of Go's
-- `strings` package on it.
use Prim.Native.Nat.{ℕ}
use Prim.Native.Char.{code}
use Prim.Native.String.{String}
use mathlib.Core.Path.{◌≡◌, refl}
use mathlib.Core.Logic.{◌↔◌, ◌≢◌}
use mathlib.Core.Bool.{Bool, true, false, ◌&&◌, ◌||◌}
use mathlib.Core.List.{List, [], ◌∷◌, ◌++◌}
use mathlib.Core.Option.{Option, none, some}
use native.Mathlib.Omega.{arith}
use ai_coworker.Prelude.Tests.{◌==◌, leb, if◌then◌else◌}

abbrev pub Text : Type 0
Text = List ℕ

-- A text literal.
abbrev pub text : String → Text
text String.[] = []
text (String.◌∷◌ c s) = code c ∷ text s

-- `==` on strings.
unfoldable pub text_eq : Text → Text → Bool
text_eq [] [] = true
text_eq (a ∷ s) (b ∷ t) = a == b && text_eq s t
text_eq _ _ = false

pub text_eq_iff : (s t : Text) → (text_eq s t ≡ true) ↔ (s ≡ t)
unfolding text_eq
text_eq_iff [] [] = ((λ _. refl), (λ _. refl))
text_eq_iff [] (b ∷ t) = ground arith
text_eq_iff (a ∷ s) [] = ground arith
text_eq_iff (a ∷ s) (b ∷ t) = ground (arith, text_eq_iff s t)

pub text_eq_refl : (s : Text) → text_eq s s ≡ true
text_eq_refl s = (text_eq_iff s s).1 refl

pub text_ne : (s t : Text) → text_eq s t ≡ false → s ≢ t
text_ne s t h = ground (arith, text_eq_iff s t)

abbrev pub is_empty : Text → Bool
is_empty [] = true
is_empty (_ ∷ _) = false

abbrev pub newline : ℕ
newline = 10

-- `strings.HasPrefix`, with what is left.
unfoldable pub strip_prefix : Text → Text → Option Text
strip_prefix [] t = some t
strip_prefix (a ∷ s) [] = none
strip_prefix (a ∷ s) (b ∷ t) = if a == b then strip_prefix s t else none

pub strip_prefix-some : (s t r : Text) → strip_prefix s t ≡ some r → t ≡ s ++ r
unfolding strip_prefix
strip_prefix-some [] t r e = ground arith
strip_prefix-some (a ∷ s) [] r e = absurd (cc e)
strip_prefix-some (a ∷ s) (b ∷ t) r e = ground (arith, strip_prefix-some s t r)

pub strip_prefix-append : (s r : Text) → strip_prefix s (s ++ r) ≡ some r
unfolding strip_prefix
strip_prefix-append [] r = refl
strip_prefix-append (a ∷ s) r =
    let same : (a == a) ≡ true = ground arith in rw same (strip_prefix-append s r)

abbrev pub after_byte : ℕ → Option Text → Option Text
after_byte c none = none
after_byte c (some t) = some (c ∷ t)

-- `strings.TrimSuffix`, if `strings.HasSuffix`.
unfoldable pub cut_suffix : Text → Text → Option Text
unfolding text_eq
cut_suffix [] suffix = if is_empty suffix then some [] else none
cut_suffix (c ∷ t) suffix =
    if text_eq (c ∷ t) suffix then some [] else after_byte c (cut_suffix t suffix)

-- `unicode.IsSpace`.
unfoldable pub is_space : ℕ → Bool
is_space c =
    leb 9 c && leb c 13
    || c == 32
    || c == 0x85
    || c == 0xa0
    || c == 0x1680
    || leb 0x2000 c && leb c 0x200a
    || c == 0x2028
    || c == 0x2029
    || c == 0x202f
    || c == 0x205f
    || c == 0x3000

unfoldable pub trim_left : Text → Text
trim_left [] = []
trim_left (c ∷ t) = if is_space c then trim_left t else c ∷ t

-- A trailing run of white space goes; white space before other characters stays.
unfoldable pub trim_right : Text → Text
trim_right [] = []
trim_right (c ∷ t) = let rest = trim_right t in if is_space c && is_empty rest then [] else c ∷ rest

-- `strings.TrimSpace`.
unfoldable pub trim_space : Text → Text
unfolding trim_left trim_right is_space
trim_space t = trim_right (trim_left t)
