-- ===== src/Adapter/GoogleDocs/Markers.antt =====
-- Where the other comments of a document stand in its text, and the markers that are put there:
-- indexComments and insertInlineMarkers of internal/adapter/googledocs/googledocs.go.
pub mod Weaving
pub mod Places
pub mod Quoted
pub mod Order
use ai_coworker.Prelude.{
  ℕ, zero, suc, ◌+◌, Bool, true, false, Option, none, some, List, [], ◌∷◌, ◌++◌, ◌&&◌, ◌||◌, Text,
  text, text_eq, is_empty, is_some, show_nat, length, strip_prefix, ltb, if◌then◌else◌,
}
use ai_coworker.Prelude.Sorting.{sort_by}
use ai_coworker.Adapter.GoogleDocs.Comments.{Comment}

abbrev pub one_later : Option ℕ → Option ℕ
one_later none = none
one_later (some n) = some (suc n)

-- `strings.Index`; `none` is -1.
unfoldable pub index_of : Text → Text → Option ℕ
unfolding strip_prefix
index_of [] sub = if is_some (strip_prefix sub []) then some 0 else none
index_of (c ∷ t) sub =
    if is_some (strip_prefix sub (c ∷ t)) then some 0 else one_later (index_of t sub)

-- `commentRef`; a `pos` of `none` is -1.
pub record CommentRef : Type 0 where
  pub index : ℕ
  pub pos : Option ℕ
  pub comment : Comment

-- `markerInsertion`.
pub record Marker : Type 0 where
  pub insert_at : ℕ
  pub marker : Text

abbrev pub quoted_pos : Text → Option Text → Option ℕ
quoted_pos doc none = none
quoted_pos doc (some q) = if is_empty q then none else index_of doc q

unfoldable pub unindexed : Text → List Comment → Text → List CommentRef
unfolding index_of text_eq
unindexed doc [] trigger = []
unindexed doc (c ∷ cs) trigger =
    let rest = unindexed doc cs trigger in
    if c.resolved || text_eq c.id trigger
    then rest
    else record { index = 0; pos = quoted_pos doc c.quoted; comment = c } ∷ rest

-- The order of the positions, -1 last.
abbrev pub pos_less : Option ℕ → Option ℕ → Bool
pos_less none q = false
pos_less (some a) none = true
pos_less (some a) (some b) = ltb a b

abbrev pub ref_less : CommentRef → CommentRef → Bool
ref_less r s = pos_less r.pos s.pos

unfoldable pub numbered : ℕ → List CommentRef → List CommentRef
numbered i [] = []
numbered i (r ∷ rs) = record r { index = i + 1 } ∷ numbered (i + 1) rs

unfoldable pub index_comments : Text → List Comment → Text → List CommentRef
unfolding unindexed sort_by numbered
index_comments doc cs trigger = numbered 0 (sort_by ref_less (unindexed doc cs trigger))

abbrev pub active_at : Option ℕ → Text → List Marker
active_at none q = []
active_at (some p) q = record { insert_at = p + length q; marker = text " [Active Comment]" } ∷ []

abbrev pub is_filled : Option Text → Bool
is_filled none = false
is_filled (some []) = false
is_filled (some (_ ∷ _)) = true

abbrev pub active_of : Text → Option Text → List Marker
active_of doc none = []
active_of doc (some q) = active_at (index_of doc q) q

-- The marker of the comment that is answered, after its quotation.
unfoldable pub active_markers : Text → List Comment → Text → List Marker
unfolding index_of text_eq
active_markers doc [] trigger = []
active_markers doc (c ∷ cs) trigger =
    let rest = active_markers doc cs trigger in
    if text_eq c.id trigger && is_filled c.quoted then active_of doc c.quoted else rest

abbrev pub ref_marker : CommentRef → ℕ → Text → Marker
ref_marker r p q = record {
  insert_at = p + length q;
  marker = text " [Comment " ++ (show_nat r.index ++ text "]");
}

abbrev pub marked :
    CommentRef → Option ℕ → Option Text → Option (List Marker) → Option (List Marker)
marked r none q rest = rest
marked r (some p) (some q) (some ms) = some (ref_marker r p q ∷ ms)
marked r (some p) (some q) none = none
marked r (some p) none rest = none

-- The markers of the other comments; `none` is the fault of a quotation that is not there.
unfoldable pub ref_markers : List CommentRef → Option (List Marker)
unfolding show_nat
ref_markers [] = some []
ref_markers (r ∷ rs) = marked r r.pos r.comment.quoted (ref_markers rs)

abbrev pub led : Option (Text × Text) → ℕ → Option (Text × Text)
led none c = none
led (some (before, after)) c = some (c ∷ before, after)

-- `t[:k]` and `t[k:]`; `none` is the fault of a bound that is out of range.
unfoldable pub cut : ℕ → Text → Option (Text × Text)
cut zero t = some ([], t)
cut (suc k) [] = none
cut (suc k) (c ∷ t) = led (cut k t) c

abbrev pub between : Text → Option (Text × Text) → Option Text
between m none = none
between m (some (before, after)) = some (before ++ (m ++ after))

abbrev pub place : Marker → Text → Option Text
place m t = between m.marker (cut m.insert_at t)

abbrev pub or_fault : Option Text → (Text → Option Text) → Option Text
or_fault none next = none
or_fault (some t) next = next t

unfoldable pub insert_all : List Marker → Text → Option Text
unfolding cut
insert_all [] t = some t
insert_all (m ∷ ms) t = or_fault (place m t) (λ s. insert_all ms s)

-- The last place first.
abbrev pub later_first : Marker → Marker → Bool
later_first m n = ltb n.insert_at m.insert_at

abbrev pub placed : Text → List Marker → Option (List Marker) → Option Text
placed doc active none = none
placed doc active (some ms) = insert_all (sort_by later_first (active ++ ms)) doc

unfoldable pub insert_inline_markers : Text → List CommentRef → List Comment → Text → Option Text
unfolding active_markers ref_markers insert_all sort_by cut
insert_inline_markers doc refs cs trigger =
    placed doc (active_markers doc cs trigger) (ref_markers refs)
