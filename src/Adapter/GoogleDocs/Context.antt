-- ===== src/Adapter/GoogleDocs/Context.antt =====
-- The context of a comment: buildDocumentContext, formatCommentSection and truncateContent of
-- internal/adapter/googledocs/googledocs.go. `none` is a fault of a slice or of a missing quotation.
use ai_coworker.Prelude.{
  ℕ, zero, suc, ◌<◌, ◌⊎◌, ◌≤◌, ◌≡◌, refl, ap, Option, none, some, List, [], ◌∷◌, ◌++◌, arith, Text,
  text, newline, length, leb, show_nat, ℤ, Bool-cases, inl, inr, if◌then◌else◌,
}
use ai_coworker.Adapter.GoogleDocs.Comments.{Comment, author_name, said, reply_lines}
use ai_coworker.Adapter.GoogleDocs.Markers.{
  CommentRef, Marker, index_comments, ref_markers, insert_inline_markers, active_markers, cut,
}
use ai_coworker.Adapter.GoogleDocs.Markers.Weaving.{weave, at_place}
use ai_coworker.Adapter.GoogleDocs.Markers.Places.{insert_inline_markers-weave}

-- `quote` is the verb %q of fmt.
module _ (quote : Text → Text) where
  abbrev pub head_line : CommentRef → Option Text → Text
  head_line r none =
      newline ∷ text "[Comment " ++ (show_nat r.index ++ text "] (general comment)\n")
  head_line r (some []) =
      newline ∷ text "[Comment " ++ (show_nat r.index ++ text "] (general comment)\n")
  head_line r (some (c ∷ q)) =
      newline ∷ text "[Comment "
      ++ (show_nat r.index ++ (text "] On: " ++ (quote (c ∷ q) ++ newline ∷ [])))

  unfoldable pub format_comment_section : List CommentRef → Text
  unfolding show_nat reply_lines
  format_comment_section [] = []
  format_comment_section (r ∷ rs) =
      head_line r r.comment.quoted
      ++ (said (text "  ") (author_name r.comment.author) r.comment.content
          ++ (reply_lines (text "    ") r.comment.replies ++ format_comment_section rs))

abbrev pub truncated : Text
truncated = text "\n\n[Content truncated due to size limit]"

abbrev pub first_part : Option (Text × Text) → Option Text
first_part none = none
first_part (some (before, after)) = some (before ++ truncated)

unfoldable pub truncate_content : Text → ℤ → Option Text
unfolding cut
truncate_content content (ℤ.pos zero) = some content
truncate_content content (ℤ.pos (suc n)) =
    if leb (length content) (suc n) then some content else first_part (cut (suc n) content)
truncate_content content (ℤ.negsuc n) = none

module _ (quote : Text → Text) where
  abbrev pub section_of : List CommentRef → Text
  section_of [] = []
  section_of (r ∷ rs) = text "\n\n=== OTHER COMMENTS ===\n" ++ format_comment_section quote (r ∷ rs)

  abbrev pub limited : List CommentRef → Option Text → ℤ → Option Text
  limited refs none max_size = none
  limited refs (some annotated) max_size =
      truncate_content (text "=== DOCUMENT ===\n" ++ (annotated ++ section_of refs)) max_size

  unfoldable pub build_document_context : Text → List Comment → Text → ℤ → Option Text
  unfolding index_comments insert_inline_markers format_comment_section truncate_content
  build_document_context doc cs trigger max_size =
      let refs = index_comments doc cs trigger in
      limited refs (insert_inline_markers doc refs cs trigger) max_size

  -- The text before it is cut to the size.
  abbrev pub full_context : Text → List Comment → Text → List Marker → Text
  full_context doc cs trigger ms =
      text "=== DOCUMENT ===\n"
      ++ (weave (at_place (active_markers doc cs trigger ++ ms)) 0 doc
          ++ section_of (index_comments doc cs trigger))

cut-some :
    (k : ℕ) (t : Text)
    → k ≤ length t
    → (before : Text) × (after : Text) × (cut k t ≡ some (before, after))
      × (t ≡ before ++ after)
      × (length before ≡ k)
unfolding cut
cut-some zero t h = ([], t, refl, refl, refl)
cut-some (suc k) [] h = absurd (omega arith)
cut-some (suc k) (c ∷ t) h =
    let (before, after, e, whole, long) = cut-some k t (omega arith) in
    (c ∷ before, after, rw e refl, ap (λ s. c ∷ s) whole, ap suc long)

-- The whole text, where there is no limit or it fits; else its first `n` bytes and the notice.
abbrev pub IsCutOf : ℕ → Text → Text → Type 0
IsCutOf n whole r =
    (r ≡ whole) × ((n ≡ 0) ⊎ (length whole ≤ n))
    ⊎ (n < length whole)
      × (before : Text) × (after : Text) × (whole ≡ before ++ after)
      × (length before ≡ n)
      × (r ≡ before ++ truncated)

truncate_content_pos :
    (t : Text) (n : ℕ) → (r : Text) × (truncate_content t (ℤ.pos n) ≡ some r) × IsCutOf n t r
unfolding truncate_content
truncate_content_pos t zero = (t, refl, inl (refl, inl refl))
truncate_content_pos t (suc n) = elim (Bool-cases (leb (length t) (suc n))) [
  | inl fits ↦ (t, rw fits refl, inl (refl, inr (ground arith)))
  | inr long ↦
      let over : suc n < length t = ground arith in
      let (before, after, parts, whole, size) = cut-some (suc n) t (omega arith) in
      (
        before ++ truncated,
        rw long (ap first_part parts),
        inr (over, before, after, whole, size, refl),
      )
]

module _ (quote : Text → Text) (doc : Text) (cs : List Comment) (trigger : Text) where
  -- With a limit that is not negative a context is made without a fault, for every document and all
  -- comments: the annotated document and the other comments, cut to the limit, if it is not 0.
  pub build_document_context-IsCutOf :
      (n : ℕ)
      → (ms : List Marker) × (r : Text) × (ref_markers (index_comments doc cs trigger) ≡ some ms)
        × (build_document_context quote doc cs trigger (ℤ.pos n) ≡ some r)
        × IsCutOf n (full_context quote doc cs trigger ms) r
  unfolding build_document_context
  build_document_context-IsCutOf n =
      let (ms, made, woven) = insert_inline_markers-weave doc cs trigger in
      let (r, cut_to, is_cut) = truncate_content_pos (full_context quote doc cs trigger ms) n in
      (ms, r, made, rw woven cut_to, is_cut)

  -- With a negative limit the code faults, for every document and all comments.
  pub build_document_context-negsuc :
      (n : ℕ) → build_document_context quote doc cs trigger (ℤ.negsuc n) ≡ none
  unfolding build_document_context truncate_content
  build_document_context-negsuc n =
      let (ms, made, woven) = insert_inline_markers-weave doc cs trigger in rw woven refl
