-- ===== src/Prelude/Decimal.antt =====
-- Go's `int` and `int64`, and `strconv`: decimal printing and parsing with the range check.
use Prim.Native.Nat.{ℕ, zero, suc, ◌+◌, ◌-◌, ◌*◌, ◌/◌, ◌%◌, ◌≤◌, ◌<◌}
use mathlib.Core.Path.{◌≡◌, refl, ap, ◌∙◌}
use mathlib.Core.Logic.{inl, inr}
use mathlib.Core.Bool.{Bool, true, false, ◌&&◌}
use mathlib.Core.Option.{Option, none, some}
use mathlib.Core.List.{[], ◌∷◌}
use native.Mathlib.Omega.{arith}
use ai_coworker.Prelude.Tests.{◌==◌, ltb, leb, if◌then◌else◌, Bool-cases}
use ai_coworker.Prelude.Texts.{Text}
use ai_coworker.Prelude.Lists.{All}

-- `negsuc n` is -(n + 1).
pub data ℤ : Type 0 where
  pos : ℕ → ℤ
  negsuc : ℕ → ℤ

abbrev pub is_digit : ℕ → Bool
is_digit c = leb b'0' c && leb c b'9'

-- The digits of `n` before those of `acc`; the fuel counts them.
unfoldable pub digits_before : ℕ → ℕ → Text → Text
digits_before zero n acc = acc
digits_before (suc f) n acc =
    let more = digits_before f (n / 10) ((48 + n % 10) ∷ acc) in
    if ltb n 10 then (48 + n) ∷ acc else more

unfoldable pub show_nat : ℕ → Text
unfolding digits_before
show_nat n = digits_before (suc n) n []

-- `strconv.Itoa` and `strconv.FormatInt(_, 10)`.
unfoldable pub itoa : ℤ → Text
unfolding show_nat
itoa (pos n) = show_nat n
itoa (negsuc n) = b'-' ∷ show_nat (suc n)

unfoldable pub read_digits : ℕ → Text → Option ℕ
read_digits acc [] = some acc
read_digits acc (c ∷ t) = if is_digit c then read_digits (acc * 10 + (c - 48)) t else none

-- At least one digit.
unfoldable pub read_nat : Text → Option ℕ
unfolding read_digits
read_nat [] = none
read_nat (c ∷ t) = read_digits 0 (c ∷ t)

abbrev pub int_limit : ℕ
int_limit = 0x8000_0000_0000_0000

abbrev pub in_pos : Option ℕ → Option ℤ
in_pos none = none
in_pos (some n) = if ltb n int_limit then some (pos n) else none

abbrev in_neg : Option ℕ → Option ℤ
in_neg none = none
in_neg (some zero) = some (pos 0)
in_neg (some (suc n)) = if ltb n int_limit then some (negsuc n) else none

-- `strconv.Atoi` and `strconv.ParseInt(_, 10, 64)`; `none` is an error, of syntax or of range.
unfoldable pub atoi : Text → Option ℤ
unfolding read_nat
atoi [] = none
atoi (c ∷ t) =
    if c == b'-'
    then in_neg (read_nat t)
    else if c == b'+'
    then in_pos (read_nat t)
    else in_pos (read_nat (c ∷ t))

-- The numbers that fit 64 bits.
abbrev pub FitsInt : ℤ → Type 0
FitsInt (pos n) = n < int_limit
FitsInt (negsuc n) = n < int_limit

-- Reading one more digit.
read_digits_step :
    (a d : ℕ) (t : Text) → d < 10 → read_digits a ((48 + d) ∷ t) ≡ read_digits (a * 10 + d) t
unfolding read_digits
read_digits_step a d t h =
    let value : 48 + d - 48 ≡ d = omega arith in
    let shown : is_digit (48 + d) ≡ true = ground arith in rw (shown, value)

read_digits-digits_before :
    (f n : ℕ) (acc : Text) → n < f → read_digits 0 (digits_before f n acc) ≡ read_digits n acc
unfolding digits_before
read_digits-digits_before zero n acc h = absurd (omega arith)
read_digits-digits_before (suc f) n acc h = elim (Bool-cases (ltb n 10)) [
  | inl small ↦
      let same : 0 * 10 + n ≡ n = omega arith in
      rw small (read_digits_step 0 n acc (ground arith) ∙ ap (λ a. read_digits a acc) same)
  | inr large ↦
      let same : n / 10 * 10 + n % 10 ≡ n = omega arith in
      rw large (
        read_digits-digits_before f (n / 10) ((48 + n % 10) ∷ acc) (ground arith)
        ∙ read_digits_step (n / 10) (n % 10) acc (omega arith)
        ∙ ap (λ a. read_digits a acc) same)
]

-- Only digits are printed before `acc`.
digits_before-digits :
    (f n : ℕ) (acc : Text)
    → All (λ c. (48 ≤ c) × (c ≤ 57)) acc
    → All (λ c. (48 ≤ c) × (c ≤ 57)) (digits_before f n acc)
unfolding digits_before
digits_before-digits zero n acc h = h
digits_before-digits (suc f) n acc h = elim (Bool-cases (ltb n 10)) [
  | inl small ↦ rw small ((omega arith, ground arith), h)
  | inr large ↦
      rw large
        (digits_before-digits f (n / 10) ((48 + n % 10) ∷ acc) ((omega arith, omega arith), h))
]

pub show_nat-digits : (n : ℕ) → All (λ c. (48 ≤ c) × (c ≤ 57)) (show_nat n)
unfolding show_nat
show_nat-digits n = digits_before-digits (suc n) n [] tt

digits_before-ne :
    (f n : ℕ) (acc : Text) → n < f → (c : ℕ) × (t : Text) × (digits_before f n acc ≡ c ∷ t)
unfolding digits_before
digits_before-ne zero n acc h = absurd (omega arith)
digits_before-ne (suc f) n acc h = elim (Bool-cases (ltb n 10)) [
  | inl small ↦ (48 + n, acc, rw small)
  | inr large ↦
      let (c, t, e) = digits_before-ne f (n / 10) ((48 + n % 10) ∷ acc) (ground arith) in
      (c, t, rw large e)
]

pub show_nat-cons : (n : ℕ) → (c : ℕ) × (t : Text) × (show_nat n ≡ c ∷ t)
unfolding show_nat
show_nat-cons n = digits_before-ne (suc n) n [] (omega arith)

pub read_nat-show_nat : (n : ℕ) → read_nat (show_nat n) ≡ some n
unfolding read_nat show_nat
read_nat-show_nat n =
    let (c, t, e) = digits_before-ne (suc n) n [] (omega arith) in
    let digits : read_digits 0 (digits_before (suc n) n []) ≡ some n =
      read_digits-digits_before (suc n) n [] (omega arith) in
    rw e (rw e at digits)

itoa_pos : (n : ℕ) → itoa (pos n) ≡ show_nat n
unfolding itoa
itoa_pos n = refl

itoa_negsuc : (n : ℕ) → itoa (negsuc n) ≡ b'-' ∷ show_nat (suc n)
unfolding itoa
itoa_negsuc n = refl

atoi_digit : (c : ℕ) (t : Text) → 48 ≤ c → c ≤ 57 → atoi (c ∷ t) ≡ in_pos (read_nat (c ∷ t))
unfolding atoi
atoi_digit c t h k =
    let minus : (c == b'-') ≡ false = ground arith in
    let plus : (c == b'+') ≡ false = ground arith in rw (minus, plus)

atoi_minus : (t : Text) → atoi (b'-' ∷ t) ≡ in_neg (read_nat t)
unfolding atoi
atoi_minus t = refl

pub atoi-show_nat : (n : ℕ) → atoi (show_nat n) ≡ in_pos (some n)
atoi-show_nat n =
    let (c, t, e) = show_nat-cons n in
    let digits = rw e at (show_nat-digits n) in
    let read = rw e at (read_nat-show_nat n) in
    rw e (atoi_digit c t digits.0.0 digits.0.1 ∙ ap in_pos read)

-- A printed number of 64 bits reads back.
pub atoi-itoa : (z : ℤ) → FitsInt z → atoi (itoa z) ≡ some z
atoi-itoa (pos n) h =
    let fits : in_pos (some n) ≡ some (pos n) = ground arith in
    rw (itoa_pos n) (atoi-show_nat n ∙ fits)
atoi-itoa (negsuc n) h =
    let fits : in_neg (some (suc n)) ≡ some (negsuc n) = ground arith in
    rw (itoa_negsuc n)
      (atoi_minus (show_nat (suc n)) ∙ ap in_neg (read_nat-show_nat (suc n)) ∙ fits)
