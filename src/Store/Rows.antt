-- ===== src/Store/Rows.antt =====
-- The rows of a table as a collection: membership, keys, and what an UPDATE does to both.
use ai_coworker.Prelude.{
  ◌≡◌, refl, sym, ap, ◌∙◌, ◌≢◌, ◌⊎◌, inl, inr, Bool, true, List, [], ◌∷◌, ◌++◌, map, keep, any, All,
  All-append, Text, arith, Bool-cases,
}
use ai_coworker.Domain.{Task}

module _ {A : Type 0} where
  abbrev pub In : A → List A → Type 0
  In a [] = ⊥
  In a (x ∷ xs) = (a ≡ x) ⊎ In a xs

  pub In-append : (a : A) (xs ys : List A) → In a (xs ++ ys) → In a xs ⊎ In a ys
  In-append a [] ys h = inr h
  In-append a (x ∷ xs) ys (inl e) = inl (inl e)
  In-append a (x ∷ xs) ys (inr h) = elim (In-append a xs ys h) [
    | inl p ↦ inl (inr p)
    | inr q ↦ inr q
  ]

  pub In-append_left : (a : A) (xs ys : List A) → In a xs → In a (xs ++ ys)
  In-append_left a [] ys h = absurd h
  In-append_left a (x ∷ xs) ys (inl e) = inl e
  In-append_left a (x ∷ xs) ys (inr h) = inr (In-append_left a xs ys h)

  pub In-keep_intro : (p : A → Bool) (a : A) (xs : List A) → In a xs → p a ≡ true → In a (keep p xs)
  unfolding keep
  In-keep_intro p a [] h e = absurd h
  In-keep_intro p a (x ∷ xs) (inl q) e = ground arith
  In-keep_intro p a (x ∷ xs) (inr h) e = ground (arith, In-keep_intro p a xs h e)

  pub In-keep : (p : A → Bool) (a : A) (xs : List A) → In a (keep p xs) → In a xs × (p a ≡ true)
  unfolding keep
  In-keep p a [] h = absurd h
  In-keep p a (x ∷ xs) h = ground (arith, In-keep p a xs)

  pub In-any : (p : A → Bool) (a : A) (xs : List A) → In a xs → p a ≡ true → any p xs ≡ true
  unfolding any
  In-any p a [] h e = absurd h
  In-any p a (x ∷ xs) (inl q) e = ground arith
  In-any p a (x ∷ xs) (inr h) e = ground (arith, In-any p a xs h e)

  pub any-In : (p : A → Bool) (xs : List A) → any p xs ≡ true → (a : A) × In a xs × (p a ≡ true)
  unfolding any
  any-In p [] e = cc
  any-In p (x ∷ xs) e = elim (Bool-cases (p x)) [
    | inl hit ↦ (x, inl refl, hit)
    | inr miss ↦ let (a, i, h) = any-In p xs (ground arith) in (a, inr i, h)
  ]

module _ {A B : Type 0} (f : A → B) where
  pub In-map : (b : B) (xs : List A) → In b (map f xs) → (a : A) × In a xs × (b ≡ f a)
  In-map b [] h = absurd h
  In-map b (x ∷ xs) (inl e) = (x, inl refl, e)
  In-map b (x ∷ xs) (inr h) = let (a, i, e) = In-map b xs h in (a, inr i, e)

  pub In-map_intro : (a : A) (xs : List A) → In a xs → In (f a) (map f xs)
  In-map_intro a [] h = h
  In-map_intro a (x ∷ xs) (inl e) = inl (ap f e)
  In-map_intro a (x ∷ xs) (inr h) = inr (In-map_intro a xs h)

-- No two rows have one id.
abbrev pub Distinct : List Task → Type 0
Distinct [] = Unit
Distinct (t ∷ ts) = All (λ u. t.id ≢ u.id) ts × Distinct ts

module _ {A : Type 0} (P : A → Type 0) where
  pub All-In : (xs : List A) → All P xs → (a : A) → In a xs → P a
  All-In [] _ a h = absurd h
  All-In (x ∷ xs) (p, _) a (inl e) = rw e p
  All-In (x ∷ xs) (_, h) a (inr i) = All-In xs h a i

  pub All-of_In : (xs : List A) → ((a : A) → In a xs → P a) → All P xs
  All-of_In [] h = tt
  All-of_In (x ∷ xs) h = (h x (inl refl), All-of_In xs (λ a i. h a (inr i)))

pub Distinct-unique :
    (ts : List Task) (t u : Task) → Distinct ts → In t ts → In u ts → t.id ≡ u.id → t ≡ u
Distinct-unique [] t u d i j e = absurd i
Distinct-unique (x ∷ xs) t u d (inl p) (inl q) e = p ∙ sym q
Distinct-unique (x ∷ xs) t u d (inl p) (inr j) e =
    absurd (All-In (λ v. x.id ≢ v.id) xs d.0 u j (rw (← p) e))
Distinct-unique (x ∷ xs) t u d (inr i) (inl q) e =
    absurd (All-In (λ v. x.id ≢ v.id) xs d.0 t i (rw (← q) (sym e)))
Distinct-unique (x ∷ xs) t u d (inr i) (inr j) e = Distinct-unique xs t u d.1 i j e

module _ (f : Task → Task) (same : (t : Task) → (f t).id ≡ t.id) where
  All-map_ne :
      (id : Text) (ts : List Task) → All (λ u. id ≢ u.id) ts → All (λ u. id ≢ u.id) (map f ts)
  All-map_ne id [] h = tt
  All-map_ne id (t ∷ ts) (n, h) = ((λ e. n (e ∙ same t)), All-map_ne id ts h)

  pub Distinct-map : (ts : List Task) → Distinct ts → Distinct (map f ts)
  Distinct-map [] d = tt
  Distinct-map (t ∷ ts) (n, d) = (rw (same t) (All-map_ne t.id ts n), Distinct-map ts d)

pub Distinct-keep : (p : Task → Bool) (ts : List Task) → Distinct ts → Distinct (keep p ts)
unfolding keep
Distinct-keep p [] d = tt
Distinct-keep p (t ∷ ts) (n, d) =
    let kept : All (λ u. t.id ≢ u.id) (keep p ts) =
      All-of_In _ _ (λ u i. All-In _ ts n u (In-keep p u ts i).0) in
    ground (arith, Distinct-keep p ts d)

pub Distinct-append :
    (ts : List Task) (t : Task)
    → Distinct ts
    → ((u : Task) → In u ts → u.id ≢ t.id)
    → Distinct (ts ++ t ∷ [])
Distinct-append [] t d h = (tt, tt)
Distinct-append (x ∷ xs) t (n, d) h = (
  All-append (λ u. x.id ≢ u.id) xs (t ∷ []) n (h x (inl refl), tt),
  Distinct-append xs t d (λ u i. h u (inr i)),
)

module _ {A : Type 0} (P : A → Type 0) where
  -- The first element moves behind others.
  pub All-rotate : (x : A) (xs ys : List A) → All P (x ∷ (xs ++ ys)) → All P (xs ++ x ∷ ys)
  All-rotate x [] ys h = h
  All-rotate x (y ∷ xs) ys (p, (q, h)) = (q, All-rotate x xs ys (p, h))

pub Distinct-rotate :
    (t : Task) (ts us : List Task) → Distinct (t ∷ (ts ++ us)) → Distinct (ts ++ t ∷ us)
Distinct-rotate t [] us d = d
Distinct-rotate t (u ∷ ts) us ((n, m), (k, d)) =
    (All-rotate (λ v. u.id ≢ v.id) t ts us ((λ e. n (sym e)), k), Distinct-rotate t ts us (m, d))
