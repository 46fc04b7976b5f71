-- ===== src/Prelude/Sorting.antt =====
-- `sort.SliceStable`, by insertion, and what holds of its result.
use mathlib.Core.Path.{◌≡◌}
use mathlib.Core.Logic.{inl, inr}
use mathlib.Core.Bool.{Bool, true, false}
use mathlib.Core.List.{List, [], ◌∷◌, Perm}
use mathlib.Core.List.Perm
use ai_coworker.Prelude.Tests.{if◌then◌else◌, Bool-cases}
use ai_coworker.Prelude.Lists.{All}

module _ {ℓ} {A : Type ℓ} (less : A → A → Bool) where
  -- Before the first element that is not less: equal elements keep their order.
  unfoldable pub insert_by : A → List A → List A
  insert_by x [] = x ∷ []
  insert_by x (y ∷ ys) = let later = y ∷ insert_by x ys in if less y x then later else x ∷ y ∷ ys

  unfoldable pub sort_by : List A → List A
  unfolding insert_by
  sort_by [] = []
  sort_by (x ∷ xs) = insert_by x (sort_by xs)

  insert_by-perm : (x : A) (ys : List A) → Perm (insert_by x ys) (x ∷ ys)
  unfolding insert_by
  insert_by-perm x [] = Perm.refl (x ∷ [])
  insert_by-perm x (y ∷ ys) = elim (Bool-cases (less y x)) [
    | inl later ↦ rw later (Perm.trans (Perm.cons y (insert_by-perm x ys)) (Perm.swap x y ys))
    | inr here ↦ rw here (Perm.refl (x ∷ y ∷ ys))
  ]

  pub sort_by-perm : (xs : List A) → Perm (sort_by xs) xs
  unfolding sort_by
  sort_by-perm [] = Perm.refl []
  sort_by-perm (x ∷ xs) = Perm.trans (insert_by-perm x (sort_by xs)) (Perm.cons x (sort_by-perm xs))

  module _ {κ} (P : A → Type κ) where
    insert_by-All : (x : A) (ys : List A) → P x → All P ys → All P (insert_by x ys)
    unfolding insert_by
    insert_by-All x [] p h = (p, tt)
    insert_by-All x (y ∷ ys) p (q, h) = elim (Bool-cases (less y x)) [
      | inl later ↦ rw later (q, insert_by-All x ys p h)
      | inr here ↦ rw here (p, (q, h))
    ]

    pub sort_by-All : (xs : List A) → All P xs → All P (sort_by xs)
    unfolding sort_by
    sort_by-All [] h = tt
    sort_by-All (x ∷ xs) (p, h) = insert_by-All x (sort_by xs) p (sort_by-All xs h)

-- Each element stands in a relation to all that come later.
abbrev pub Ordered {ℓ} : {A : Type ℓ} → (A → A → Type 0) → List A → Type 0
Ordered R [] = Unit
Ordered R (x ∷ xs) = All (R x) xs × Ordered R xs

module _ {ℓ} {A : Type ℓ} (less : A → A → Bool) (R : A → A → Type 0)
    (below : (x y : A) → less y x ≡ true → R y x) (above : (x y : A) → less y x ≡ false → R x y)
    (carried : (x y z : A) → R x y → R y z → R x z) where
  All-carried : (x y : A) (zs : List A) → R x y → All (R y) zs → All (R x) zs
  All-carried x y [] r h = tt
  All-carried x y (z ∷ zs) r (q, h) = (carried x y z r q, All-carried x y zs r h)

  insert_by-Ordered : (x : A) (ys : List A) → Ordered R ys → Ordered R (insert_by less x ys)
  unfolding insert_by
  insert_by-Ordered x [] h = (tt, tt)
  insert_by-Ordered x (y ∷ ys) (first, h) = elim (Bool-cases (less y x)) [
    | inl later ↦
        rw later (insert_by-All less (R y) x ys (below x y later) first, insert_by-Ordered x ys h)
    | inr here ↦ rw here ((above x y here, All-carried x y ys (above x y here) first), (first, h))
  ]

  pub sort_by-Ordered : (xs : List A) → Ordered R (sort_by less xs)
  unfolding sort_by
  sort_by-Ordered [] = tt
  sort_by-Ordered (x ∷ xs) = insert_by-Ordered x (sort_by less xs) (sort_by-Ordered xs)
