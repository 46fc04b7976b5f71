-- ===== src/Adapter/GoogleDocs/Markers/Order.antt =====
-- The numbers of the other comments follow their places in the text.
use ai_coworker.Prelude.{
  ℕ, ◌+◌, ◌≡◌, ◌≤◌, subst, refl, sym, ap, true, false, not, Bool, Option, none, some, List, [], ◌∷◌,
  ◌||◌, arith, Text, text_eq, map, keep, All, Bool-cases, inl, inr,
}
use mathlib.Core.List.{Perm}
use mathlib.Core.List.Perm
use ai_coworker.Prelude.Sorting.{sort_by, Ordered, sort_by-Ordered, sort_by-perm}
use ai_coworker.Adapter.GoogleDocs.Comments.{Comment}
use ai_coworker.Adapter.GoogleDocs.Markers.{
  CommentRef, unindexed, pos_less, ref_less, numbered, index_comments,
}
use ai_coworker.Adapter.GoogleDocs.Markers.Quoted.{IsPlacedIn, index_comments-IsPlacedIn}

-- The first place is not behind the second; no place is behind all others.
abbrev pub InOrder : Option ℕ → Option ℕ → Type 0
InOrder p none = Unit
InOrder none (some b) = ⊥
InOrder (some a) (some b) = a ≤ b

abbrev pub NotBehind : CommentRef → CommentRef → Type 0
NotBehind r s = InOrder r.pos s.pos

pos_less-InOrder : (p q : Option ℕ) → pos_less p q ≡ true → InOrder p q
pos_less-InOrder none q h = absurd (cc h)
pos_less-InOrder (some a) none h = tt
pos_less-InOrder (some a) (some b) h = ground arith

pos_less-InOrder_not : (p q : Option ℕ) → pos_less q p ≡ false → InOrder p q
pos_less-InOrder_not p none h = tt
pos_less-InOrder_not none (some b) h = absurd (cc h)
pos_less-InOrder_not (some a) (some b) h = ground arith

InOrder-trans : (p q r : Option ℕ) → InOrder p q → InOrder q r → InOrder p r
InOrder-trans p q none h k = tt
InOrder-trans p none (some c) h k = absurd k
InOrder-trans none (some b) (some c) h k = absurd h
InOrder-trans (some a) (some b) (some c) h k = omega arith

abbrev pub count_from : ℕ → List CommentRef → List ℕ
count_from i [] = []
count_from i (r ∷ rs) = (i + 1) ∷ count_from (i + 1) rs

numbered-index :
    (i : ℕ) (rs : List CommentRef)
    → map (λ r. r.index) (numbered i rs) ≡ count_from i (numbered i rs)
unfolding numbered
numbered-index i [] = refl
numbered-index i (r ∷ rs) = ap (λ is. (i + 1) ∷ is) (numbered-index (i + 1) rs)

numbered-comment :
    (i : ℕ) (rs : List CommentRef) → map (λ r. r.comment) (numbered i rs) ≡ map (λ r. r.comment) rs
unfolding numbered
numbered-comment i [] = refl
numbered-comment i (r ∷ rs) = ap (λ cs. r.comment ∷ cs) (numbered-comment (i + 1) rs)

numbered-All :
    (i : ℕ) (r : CommentRef) (rs : List CommentRef)
    → All (NotBehind r) rs
    → All (NotBehind (record r { index = i })) (numbered i rs)
unfolding numbered
numbered-All i r [] h = tt
numbered-All i r (s ∷ rs) (p, h) = (p, numbered-All (i + 1) r rs h)

numbered-Ordered :
    (i : ℕ) (rs : List CommentRef) → Ordered NotBehind rs → Ordered NotBehind (numbered i rs)
unfolding numbered
numbered-Ordered i [] h = tt
numbered-Ordered i (r ∷ rs) (first, h) =
    (numbered-All (i + 1) r rs first, numbered-Ordered (i + 1) rs h)

-- Neither resolved nor the comment that is answered.
abbrev pub is_other : Text → Comment → Bool
is_other trigger c = not (c.resolved || text_eq c.id trigger)

unindexed-comment :
    (doc : Text) (cs : List Comment) (trigger : Text)
    → map (λ r. r.comment) (unindexed doc cs trigger) ≡ keep (is_other trigger) cs
unfolding unindexed keep
unindexed-comment doc [] trigger = refl
unindexed-comment doc (c ∷ cs) trigger = elim (Bool-cases (c.resolved || text_eq c.id trigger)) [
  | inl out ↦ rw out (unindexed-comment doc cs trigger)
  | inr other ↦ rw other (ap (λ ds. c ∷ ds) (unindexed-comment doc cs trigger))
]

-- The references are those of the open comments but the answered one, each once, and each has the
-- first place at which the quotation of its comment stands in the text, or none if there is no
-- quotation or it stands nowhere. They are numbered 1, 2, … and stand in the order of these places,
-- those without a place last.
pub index_comments-Ordered :
    (doc : Text) (cs : List Comment) (trigger : Text)
    → Ordered NotBehind (index_comments doc cs trigger)
      × (map (λ r. r.index) (index_comments doc cs trigger)
          ≡ count_from 0 (index_comments doc cs trigger))
      × Perm (map (λ r. r.comment) (index_comments doc cs trigger)) (keep (is_other trigger) cs)
      × All (IsPlacedIn doc) (index_comments doc cs trigger)
unfolding index_comments
index_comments-Ordered doc cs trigger =
    let refs = unindexed doc cs trigger in
    let sorted = sort_by ref_less refs in
    let ordered : Ordered NotBehind sorted =
      sort_by-Ordered ref_less NotBehind (λ r s h. pos_less-InOrder s.pos r.pos h)
        (λ r s h. pos_less-InOrder_not r.pos s.pos h)
        (λ r s t h k. InOrder-trans r.pos s.pos t.pos h k) refs in
    (
      numbered-Ordered 0 sorted ordered,
      numbered-index 0 sorted,
      subst (λ ds. Perm ds (keep (is_other trigger) cs)) (sym (numbered-comment 0 sorted))
          (subst (λ ds. Perm (map (λ r. r.comment) sorted) ds) (unindexed-comment doc cs trigger)
            (Perm.map (λ r. r.comment) (sort_by-perm ref_less refs))),
      index_comments-IsPlacedIn doc cs trigger,
    )
