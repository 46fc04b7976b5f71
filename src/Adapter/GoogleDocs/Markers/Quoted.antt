-- ===== src/Adapter/GoogleDocs/Markers/Quoted.antt =====
-- The first place of a comment's quotation in the text of the document: `strings.Index` as
-- indexComments of internal/adapter/googledocs/googledocs.go calls it.
use ai_coworker.Prelude.{
  ℕ, suc, ◌+◌, ◌≤◌, ◌≡◌, refl, sym, ap, ◌∙◌, true, Option, none, some, List, [], ◌∷◌, ◌++◌, ◌||◌,
  arith, Text, text_eq, is_some, strip_prefix, strip_prefix-append, length, All, Bool-cases, inl,
  inr,
}
use ai_coworker.Prelude.Sorting.{sort_by, sort_by-All}
use ai_coworker.Adapter.GoogleDocs.Comments.{Comment}
use ai_coworker.Adapter.GoogleDocs.Markers.{
  index_of, CommentRef, quoted_pos, unindexed, ref_less, numbered, index_comments,
}
use ai_coworker.Adapter.GoogleDocs.Markers.Places.{index_of-some}

-- The quotation stands in the text behind that many characters.
abbrev pub Stands : Text → Text → ℕ → Type 0
Stands doc quote p =
    (before : Text) × (after : Text) × (doc ≡ before ++ (quote ++ after)) × (length before ≡ p)

-- The first place of the quotation, or none if it stands nowhere.
abbrev pub IsFirst : Text → Text → Option ℕ → Type 0
IsFirst doc quote none = (o : ℕ) → ¬ (Stands doc quote o)
IsFirst doc quote (some p) = Stands doc quote p × ((o : ℕ) → Stands doc quote o → p ≤ o)

-- A comment without a quotation, or with an empty one, has no place.
abbrev pub IsAt : Text → Option Text → Option ℕ → Type 0
IsAt doc none pos = pos ≡ none
IsAt doc (some []) pos = pos ≡ none
IsAt doc (some (c ∷ quote)) pos = IsFirst doc (c ∷ quote) pos

abbrev pub IsPlacedIn : Text → CommentRef → Type 0
IsPlacedIn doc r = IsAt doc r.comment.quoted r.pos

index_of-here : (t sub : Text) → is_some (strip_prefix sub t) ≡ true → index_of t sub ≡ some 0
unfolding index_of
index_of-here [] sub h = rw h refl
index_of-here (c ∷ t) sub h = rw h refl

index_of-append :
    (before sub after : Text)
    → (p : ℕ) × (index_of (before ++ (sub ++ after)) sub ≡ some p) × (p ≤ length before)
unfolding index_of
index_of-append [] sub after =
    (0, index_of-here (sub ++ after) sub (ap is_some (strip_prefix-append sub after)), omega arith)
index_of-append (c ∷ before) sub after =
    let (p, found, below) = index_of-append before sub after in
    elim (Bool-cases (is_some (strip_prefix sub (c ∷ before ++ (sub ++ after))))) [
      | inl here ↦ (0, index_of-here (c ∷ before ++ (sub ++ after)) sub here, omega arith)
      | inr away ↦ (suc p, rw (away, found) refl, omega arith)
    ]

-- No occurrence is before the one that is found, and one is found if there is any.
index_of-first :
    (doc quote : Text) (o : ℕ)
    → Stands doc quote o
    → (p : ℕ) × (index_of doc quote ≡ some p) × (p ≤ o)
index_of-first doc quote o (before, after, e, long) =
    let (p, found, below) = index_of-append before quote after in
    (p, ap (λ t. index_of t quote) e ∙ found, omega (arith, long, below))

index_of-IsFirst :
    (doc quote : Text) (pos : Option ℕ) → index_of doc quote ≡ pos → IsFirst doc quote pos
index_of-IsFirst doc quote none e =
    λ o stands. let (p, found, below) = index_of-first doc quote o stands in absurd (cc (e, found))
index_of-IsFirst doc quote (some p) e = (
  index_of-some doc quote p e,
  λ o stands.
      let (q, found, below) = index_of-first doc quote o stands in
      let same : some q ≡ some p = sym found ∙ e in ground (arith, same, below),
)

quoted_pos-IsAt : (doc : Text) (quoted : Option Text) → IsAt doc quoted (quoted_pos doc quoted)
quoted_pos-IsAt doc none = refl
quoted_pos-IsAt doc (some []) = refl
quoted_pos-IsAt doc (some (c ∷ quote)) = index_of-IsFirst doc (c ∷ quote) _ refl

unindexed-IsPlacedIn :
    (doc : Text) (cs : List Comment) (trigger : Text)
    → All (IsPlacedIn doc) (unindexed doc cs trigger)
unfolding unindexed
unindexed-IsPlacedIn doc [] trigger = tt
unindexed-IsPlacedIn doc (c ∷ cs) trigger =
    let rest = unindexed-IsPlacedIn doc cs trigger in
    elim (Bool-cases (c.resolved || text_eq c.id trigger)) [
      | inl out ↦ rw out rest
      | inr other ↦ rw other (quoted_pos-IsAt doc c.quoted, rest)
    ]

numbered-IsPlacedIn :
    (doc : Text) (i : ℕ) (rs : List CommentRef)
    → All (IsPlacedIn doc) rs
    → All (IsPlacedIn doc) (numbered i rs)
unfolding numbered
numbered-IsPlacedIn doc i [] h = tt
numbered-IsPlacedIn doc i (r ∷ rs) (p, h) = (p, numbered-IsPlacedIn doc (i + 1) rs h)

-- Each reference has the first place of its comment's quotation.
pub index_comments-IsPlacedIn :
    (doc : Text) (cs : List Comment) (trigger : Text)
    → All (IsPlacedIn doc) (index_comments doc cs trigger)
unfolding index_comments
index_comments-IsPlacedIn doc cs trigger =
    numbered-IsPlacedIn doc 0 (sort_by ref_less (unindexed doc cs trigger)) (
      sort_by-All ref_less (IsPlacedIn doc) (unindexed doc cs trigger)
        (unindexed-IsPlacedIn doc cs trigger))
