-- ===== src/Adapter/GoogleDocs/Markers/Places.antt =====
-- Where the quotations of comments are found in the text, and what is put there.
use ai_coworker.Prelude.{
  ℕ, suc, ◌+◌, ◌≤◌, ◌≡◌, ◌==◌, refl, sym, ap, ◌∙◌, true, Option, none, some, List, [], ◌∷◌, ◌++◌,
  ◌&&◌, ◌||◌, arith, Text, text_eq, is_some, strip_prefix, length, length-append, All, All-append,
  Bool-cases, Option-cases, inl, inr,
}
use ai_coworker.Prelude.Sorting.{sort_by, sort_by-All}
use ai_coworker.Adapter.GoogleDocs.Comments.{Comment}
use ai_coworker.Adapter.GoogleDocs.Markers.{
  index_of, CommentRef, Marker, quoted_pos, unindexed, ref_less, numbered, index_comments,
  active_of, is_filled, active_markers, ref_marker, ref_markers, placed, insert_inline_markers,
}
use ai_coworker.Adapter.GoogleDocs.Markers.Weaving.{weave, at_place, insert_all-sort_by}

strip_prefix-some :
    (sub t : Text) → is_some (strip_prefix sub t) ≡ true → (after : Text) × (t ≡ sub ++ after)
unfolding strip_prefix
strip_prefix-some [] t h = (t, refl)
strip_prefix-some (a ∷ sub) [] h = absurd (cc h)
strip_prefix-some (a ∷ sub) (b ∷ t) h = elim (Bool-cases (a == b)) [
  | inr other ↦ absurd (cc (rw other at h))
  | inl same ↦
      let (after, e) = strip_prefix-some sub t (rw same at h) in
      let first : b ≡ a = ground arith in (after, rw (first, e) refl)
]

-- The sub-text stands in the text where its index says.
pub index_of-some :
    (t sub : Text) (p : ℕ)
    → index_of t sub ≡ some p
    → (before : Text) × (after : Text) × (t ≡ before ++ (sub ++ after)) × (length before ≡ p)
unfolding index_of
index_of-some [] sub p h = elim (Bool-cases (is_some (strip_prefix sub []))) [
  | inl here ↦
      let (after, e) = strip_prefix-some sub [] here in ([], after, e, ground (arith, here))
  | inr away ↦ absurd (cc (rw away at h))
]
index_of-some (c ∷ t) sub p h = elim (Bool-cases (is_some (strip_prefix sub (c ∷ t)))) [
  | inl here ↦
      let (after, e) = strip_prefix-some sub (c ∷ t) here in ([], after, e, ground (arith, here))
  | inr away ↦ elim (Option-cases (index_of t sub)) [
    | inl nowhere ↦ absurd (cc (rw (away, nowhere) at h))
    | inr (q, found) ↦
        let (before, after, e, long) = index_of-some t sub q found in
        let next : some (suc q) ≡ some p = (rw (away, found) at h) in
        (c ∷ before, after, ap (λ s. c ∷ s) e, ground arith)
  ]
]

-- A quotation that is found ends inside of the text.
index_of-le : (t sub : Text) (p : ℕ) → index_of t sub ≡ some p → p + length sub ≤ length t
index_of-le t sub p h =
    let (before, after, e, long) = index_of-some t sub p h in
    rw e (omega (arith, long, length-append before (sub ++ after), length-append sub after))

abbrev Within : Text → Marker → Type 0
Within doc m = m.insert_at ≤ length doc

-- What a reference knows of its comment's place.
abbrev IsPlaced : Text → CommentRef → Type 0
IsPlaced doc r = r.pos ≡ quoted_pos doc r.comment.quoted

unindexed-IsPlaced :
    (doc : Text) (cs : List Comment) (trigger : Text)
    → All (IsPlaced doc) (unindexed doc cs trigger)
unfolding unindexed
unindexed-IsPlaced doc [] trigger = tt
unindexed-IsPlaced doc (c ∷ cs) trigger = elim (Bool-cases (c.resolved || text_eq c.id trigger)) [
  | inl out ↦ rw out (unindexed-IsPlaced doc cs trigger)
  | inr other ↦ rw other (refl, unindexed-IsPlaced doc cs trigger)
]

numbered-IsPlaced :
    (doc : Text) (i : ℕ) (rs : List CommentRef)
    → All (IsPlaced doc) rs
    → All (IsPlaced doc) (numbered i rs)
unfolding numbered
numbered-IsPlaced doc i [] h = tt
numbered-IsPlaced doc i (r ∷ rs) (p, h) = (p, numbered-IsPlaced doc (i + 1) rs h)

index_comments-IsPlaced :
    (doc : Text) (cs : List Comment) (trigger : Text)
    → All (IsPlaced doc) (index_comments doc cs trigger)
unfolding index_comments
index_comments-IsPlaced doc cs trigger =
    numbered-IsPlaced doc 0 (sort_by ref_less (unindexed doc cs trigger)) (
      sort_by-All ref_less (IsPlaced doc) (unindexed doc cs trigger)
        (unindexed-IsPlaced doc cs trigger))

-- A place is that of a quotation.
quoted_pos-some :
    (doc : Text) (quoted : Option Text) (p : ℕ)
    → quoted_pos doc quoted ≡ some p
    → (q : Text) × (quoted ≡ some q) × (index_of doc q ≡ some p)
quoted_pos-some doc none p h = absurd (cc h)
quoted_pos-some doc (some []) p h = absurd (cc h)
quoted_pos-some doc (some (c ∷ q)) p h = (c ∷ q, refl, h)

-- Every reference's quotation is there when its marker is made, and its place is in the text.
ref_markers-Within :
    (doc : Text) (rs : List CommentRef)
    → All (IsPlaced doc) rs
    → (ms : List Marker) × (ref_markers rs ≡ some ms) × All (Within doc) ms
unfolding ref_markers
ref_markers-Within doc [] h = ([], refl, tt)
ref_markers-Within doc (r ∷ rs) (placed_at, h) =
    let (ms, made, within) = ref_markers-Within doc rs h in
    elim (Option-cases r.pos) [
      | inl nowhere ↦ (ms, rw nowhere made, within)
      | inr (p, at) ↦
          let (q, quoted, found) = quoted_pos-some doc r.comment.quoted p (sym placed_at ∙ at) in
          (ref_marker r p q ∷ ms, rw (at, quoted, made) refl, (index_of-le doc q p found, within))
    ]

active_of-Within : (doc : Text) (quoted : Option Text) → All (Within doc) (active_of doc quoted)
active_of-Within doc none = tt
active_of-Within doc (some q) = elim (Option-cases (index_of doc q)) [
  | inl nowhere ↦ rw nowhere tt
  | inr (p, at) ↦ rw at (index_of-le doc q p at, tt)
]

active_markers-Within :
    (doc : Text) (cs : List Comment) (trigger : Text)
    → All (Within doc) (active_markers doc cs trigger)
unfolding active_markers
active_markers-Within doc [] trigger = tt
active_markers-Within doc (c ∷ cs) trigger =
    elim (Bool-cases (text_eq c.id trigger && is_filled c.quoted)) [
      | inl active ↦ rw active (active_of-Within doc c.quoted)
      | inr other ↦ rw other (active_markers-Within doc cs trigger)
    ]

-- The markers are put into the text without a fault, a missing quotation or a place out of range,
-- and the result is that of one pass over the text which says at each place the markers of the
-- quotations that end there, the other comments' before the active one.
pub insert_inline_markers-weave :
    (doc : Text) (cs : List Comment) (trigger : Text)
    → (ms : List Marker) × (ref_markers (index_comments doc cs trigger) ≡ some ms)
      × (insert_inline_markers doc (index_comments doc cs trigger) cs trigger
          ≡ some (weave (at_place (active_markers doc cs trigger ++ ms)) 0 doc))
unfolding insert_inline_markers
insert_inline_markers-weave doc cs trigger =
    let (ms, made, within) =
      ref_markers-Within doc (index_comments doc cs trigger)
        (index_comments-IsPlaced doc cs trigger) in
    let active = active_markers doc cs trigger in
    (
      ms,
      made,
      ap (placed doc active) made
          ∙ insert_all-sort_by doc (active ++ ms)
              (All-append (Within doc) active ms (active_markers-Within doc cs trigger) within),
    )
