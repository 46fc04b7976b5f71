-- ===== src/Adapter/GoogleDocs/Markers/Weaving.antt =====
-- Putting markers into a text, the last place first, is one pass over the text.
use ai_coworker.Prelude.{
  ℕ, zero, suc, ◌+◌, ◌≤◌, ◌≡◌, ◌≢◌, Option, none, subst, refl, sym, ap, ◌∙◌, true, some, List, [],
  ◌∷◌, ◌++◌, Text, ◌==◌, arith, if◌then◌else◌, Bool-cases, inl, inr, All, length,
}
use ai_coworker.Prelude.Sorting.{insert_by, sort_by, Ordered, sort_by-Ordered, sort_by-All}
use ai_coworker.Adapter.GoogleDocs.Markers.{
  Marker, cut, led, between, place, insert_all, or_fault, later_first,
}
use mathlib.Core.List.{append_assoc, append-nil}

-- What one marker says at a place.
abbrev pub says : Marker → ℕ → Text
says m i = if m.insert_at == i then m.marker else []

-- All that is said at a place: the markers of one place stand in the reverse of their order.
unfoldable pub at_place : List Marker → ℕ → Text
at_place [] i = []
at_place (m ∷ ms) i = at_place ms i ++ says m i

-- One pass over the text, whose first byte has the number `i`.
unfoldable pub weave : (ℕ → Text) → ℕ → Text → Text
weave f i [] = f i
weave f i (c ∷ t) = f i ++ c ∷ weave f (suc i) t

weave-nothing : (i : ℕ) (t : Text) → weave (λ _. []) i t ≡ t
unfolding weave
weave-nothing i [] = refl
weave-nothing i (c ∷ t) = ap (λ s. c ∷ s) (weave-nothing (suc i) t)

-- What is said is only looked at from the first place on.
weave-congr :
    (f g : ℕ → Text) (i : ℕ) (t : Text) → ((j : ℕ) → i ≤ j → f j ≡ g j) → weave f i t ≡ weave g i t
unfolding weave
weave-congr f g i [] h = h i (omega arith)
weave-congr f g i (c ∷ t) h =
    rw (h i (omega arith))
      (ap (λ s. g i ++ c ∷ s) (weave-congr f g (suc i) t (λ j le. h j (omega arith))))

-- What is said, with one more marker in front of its place.
abbrev with_marker : Marker → (ℕ → Text) → ℕ → Text
with_marker m f i = says m i ++ f i

says_self : (m : Marker) → says m m.insert_at ≡ m.marker
says_self m = ground arith

says-other : (m : Marker) (j : ℕ) → m.insert_at ≢ j → says m j ≡ []
says-other m j h = ground arith

-- The same text with a byte in front.
abbrev fronted : ℕ → Option Text → Option Text
fronted c none = none
fronted c (some t) = some (c ∷ t)

between-led :
    (m : Text) (parts : Option (Text × Text)) (c : ℕ)
    → between m (led parts c) ≡ fronted c (between m parts)
between-led m none c = refl
between-led m (some (before, after)) c = refl

weave-first :
    (f : ℕ → Text) (m : Marker) (i : ℕ) (t : Text)
    → m.insert_at ≡ i
    → m.marker ++ weave f i t ≡ weave (with_marker m f) i t
unfolding weave
weave-first f m i [] here = rw (← here, says_self m) refl
weave-first f m i (c ∷ t) here =
    let later : weave f (suc i) t ≡ weave (with_marker m f) (suc i) t =
      weave-congr f (with_marker m f) (suc i) t
        (λ j le. rw (says-other m j (λ e. absurd (omega arith))) refl) in
    let first : says m i ≡ m.marker = subst (λ j. says m j ≡ m.marker) here (says_self m) in
    rw (later, first) (sym (append_assoc m.marker (f i) _))

weave-quiet :
    (f : ℕ → Text) (i c : ℕ) (t : Text) → f i ≡ [] → weave f i (c ∷ t) ≡ c ∷ weave f (suc i) t
unfolding weave
weave-quiet f i c t h = rw h refl

-- A marker is put into a woven text where so far nothing is said at earlier places.
between-weave :
    (f : ℕ → Text) (m : Marker) (k i : ℕ) (t : Text)
    → m.insert_at ≡ i + k
    → k ≤ length t
    → ((j : ℕ) → suc j ≤ i + k → f j ≡ [])
    → between m.marker (cut k (weave f i t)) ≡ some (weave (with_marker m f) i t)
unfolding cut
between-weave f m zero i t here le quiet = ap some (weave-first f m i t (omega arith))
between-weave f m (suc k) i [] here le quiet = absurd (omega arith)
between-weave f m (suc k) i (c ∷ t) here le quiet =
    let next =
      between-weave f m k (suc i) t (omega arith) (omega arith) (λ j lt. quiet j (omega arith)) in
    let unsaid : f i ≡ [] = quiet i (omega arith) in
    let elsewhere : says m i ++ f i ≡ [] =
      rw (says-other m i (λ e. absurd (omega arith)), unsaid) refl in
    rw (weave-quiet f i c t unsaid, weave-quiet (with_marker m f) i c t elsewhere)
      (between-led m.marker (cut k (weave f (suc i) t)) c ∙ ap (fronted c) next)

-- No marker stands before one that comes later in the list.
abbrev pub NotBefore : Marker → Marker → Type 0
NotBefore m n = n.insert_at ≤ m.insert_at

-- Nothing is said before the place of a marker.
abbrev QuietBefore : (ℕ → Text) → Marker → Type 0
QuietBefore f m = (j : ℕ) → suc j ≤ m.insert_at → f j ≡ []

QuietBefore-with_marker :
    (f : ℕ → Text) (m : Marker) (ms : List Marker)
    → All (NotBefore m) ms
    → All (QuietBefore f) ms
    → All (QuietBefore (with_marker m f)) ms
QuietBefore-with_marker f m [] le quiet = tt
QuietBefore-with_marker f m (n ∷ ms) (le, les) (q, quiet) = (
  λ j lt. rw (says-other m j (λ e. absurd (omega arith)), q j lt) refl,
  QuietBefore-with_marker f m ms les quiet,
)

-- The markers in their order are put in, without a fault.
insert_all-weave :
    (doc : Text) (f : ℕ → Text) (ms : List Marker)
    → Ordered NotBefore ms
    → All (λ m. m.insert_at ≤ length doc) ms
    → All (QuietBefore f) ms
    → insert_all ms (weave f 0 doc) ≡ some (weave (λ i. at_place ms i ++ f i) 0 doc)
unfolding insert_all at_place
insert_all-weave doc f [] sorted within quiet = refl
insert_all-weave doc f (m ∷ ms) (first, sorted) (here, within) (q, quiet) =
    let put : place m (weave f 0 doc) ≡ some (weave (with_marker m f) 0 doc) =
      between-weave f m m.insert_at 0 doc (omega arith) here (λ j lt. q j (omega arith)) in
    let rest =
      insert_all-weave doc (with_marker m f) ms sorted within
        (QuietBefore-with_marker f m ms first quiet) in
    let together : weave (λ i. at_place ms i ++ (says m i ++ f i)) 0 doc
        ≡ weave (λ i. (at_place ms i ++ says m i) ++ f i) 0 doc =
      weave-congr (λ i. at_place ms i ++ (says m i ++ f i))
        (λ i. (at_place ms i ++ says m i) ++ f i) 0 doc
        (λ j le. sym (append_assoc (at_place ms j) (says m j) (f j))) in
    ap (λ t. or_fault t (λ s. insert_all ms s)) put ∙ rest ∙ ap some together

-- Two markers of different places say nothing at the same place.
says-apart :
    (m n : Marker) (i : ℕ) → later_first m n ≡ true → says m i ++ says n i ≡ says n i ++ says m i
says-apart m n i h = elim (Bool-cases (m.insert_at == i)) [
  | inl here ↦
      let away : says n i ≡ [] = says-other n i (λ e. absurd (ground arith)) in
      rw away (append-nil _)
  | inr there ↦ let away : says m i ≡ [] = ground arith in rw away (sym (append-nil _))
]

at_place-insert_by :
    (m : Marker) (ms : List Marker) (i : ℕ)
    → at_place (insert_by later_first m ms) i ≡ at_place ms i ++ says m i
unfolding at_place insert_by
at_place-insert_by m [] i = refl
at_place-insert_by m (n ∷ ms) i = elim (Bool-cases (later_first n m)) [
  | inr here ↦ rw here refl
  | inl later ↦ rw later (
      ap (λ t. t ++ says n i) (at_place-insert_by m ms i)
      ∙ append_assoc (at_place ms i) (says m i) (says n i)
      ∙ ap (λ t. at_place ms i ++ t) (sym (says-apart n m i later))
      ∙ sym (append_assoc (at_place ms i) (says n i) (says m i)))
]

-- Sorting keeps what is said at each place, since it keeps the order of equal places.
at_place-sort_by : (ms : List Marker) (i : ℕ) → at_place (sort_by later_first ms) i ≡ at_place ms i
unfolding at_place sort_by
at_place-sort_by [] i = refl
at_place-sort_by (m ∷ ms) i =
    at_place-insert_by m (sort_by later_first ms) i
    ∙ ap (λ t. t ++ says m i) (at_place-sort_by ms i)

QuietBefore-nothing : (ms : List Marker) → All (QuietBefore (λ _. [])) ms
QuietBefore-nothing [] = tt
QuietBefore-nothing (m ∷ ms) = ((λ j lt. refl), QuietBefore-nothing ms)

-- Markers inside of the text, sorted and put in one after the other, are those of one pass.
pub insert_all-sort_by :
    (doc : Text) (ms : List Marker)
    → All (λ m. m.insert_at ≤ length doc) ms
    → insert_all (sort_by later_first ms) doc ≡ some (weave (at_place ms) 0 doc)
insert_all-sort_by doc ms within =
    let sorted = sort_by later_first ms in
    let ordered : Ordered NotBefore sorted =
      sort_by-Ordered later_first NotBefore (λ m n h. ground arith) (λ m n h. ground arith)
        (λ l m n h k. omega arith) ms in
    let inside = sort_by-All later_first (λ m. m.insert_at ≤ length doc) ms within in
    let put = insert_all-weave doc (λ _. []) sorted ordered inside (QuietBefore-nothing sorted) in
    let same : weave (λ i. at_place sorted i ++ []) 0 doc ≡ weave (at_place ms) 0 doc =
      weave-congr (λ i. at_place sorted i ++ []) (at_place ms) 0 doc
        (λ j le. append-nil (at_place sorted j) ∙ at_place-sort_by ms j) in
    ap (insert_all sorted) (sym (weave-nothing 0 doc)) ∙ put ∙ ap some same
