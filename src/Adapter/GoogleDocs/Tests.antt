-- ===== src/Adapter/GoogleDocs/Tests.antt =====
-- The Google Docs adapter on a small document.
use ai_coworker.Prelude.{
  ℕ, zero, suc, ◌+◌, ◌*◌, ◌≤◌, ◌≡◌, ◌||◌, if◌then◌else◌, refl, true, false, none, some, List, [],
  ◌∷◌, ◌++◌, map, keep, any, All, length, Text, text, text_eq, ℤ, itoa, arith, text_eq_iff, Option,
  subst, ◌∙◌, ◌<◌, sym, ap, inl, inr, Bool-cases,
}
use mathlib.Core.List.{Perm}
use ai_coworker.Prelude.Sorting.{Ordered}
use ai_coworker.Store.Rows.{In}
use ai_coworker.Store.{fault, Result, ok, err, set_adapter_state}
use ai_coworker.Engine.World.{Env, World}
use ai_coworker.Engine.Tests.{world, env}
use ai_coworker.Adapter.GoogleDocs.Comments.{Author, Comment}
use ai_coworker.Adapter.GoogleDocs.Markers.{
  Marker, index_comments, active_markers, ref_markers, insert_inline_markers,
}
use ai_coworker.Adapter.GoogleDocs.Markers.Weaving.{weave, at_place}
use ai_coworker.Adapter.GoogleDocs.Markers.Places.{insert_inline_markers-weave}
use ai_coworker.Adapter.GoogleDocs.Markers.Quoted.{IsPlacedIn}
use ai_coworker.Adapter.GoogleDocs.Markers.Order.{
  NotBehind, count_from, is_other, index_comments-Ordered,
}
use ai_coworker.Adapter.GoogleDocs.Context.{build_document_context, truncated}
use ai_coworker.Adapter.GoogleDocs.Size.{parse_content_max_size}
use ai_coworker.Adapter.GoogleDocs.Limits.{
  length-build_document_context, build_document_context-negative,
}
use ai_coworker.Adapter.GoogleDocs.Pages.{CommentPage}
use ai_coworker.Adapter.GoogleDocs.Changes.{Change, ChangePage, has_id, changed_documents}
use ai_coworker.Adapter.GoogleDocs.Changes.Found.{
  Distinct, names, Serves, last_page, one_more, joined, changed_documents-Serves,
}
use ai_coworker.Adapter.GoogleDocs.Check.{Drive, Setup, text_lt}
use ai_coworker.Adapter.GoogleDocs.Check.SavedTime.{Clock}

abbrev ann : Author
ann = record { me = false; email = text "ann@x"; display_name = text "Ann" }

abbrev bot : Author
bot = record { me = true; email = text "bot@x"; display_name = text "Bot" }

abbrev comment : Text → Text → Comment
comment id quoted = record {
  id = id;
  content = text "bot@x why?";
  resolved = false;
  author = some ann;
  replies = [];
  quoted = some quoted;
  html_content = [];
  modified_time = text "2026";
}

abbrev comments : List Comment
comments =
    comment (text "1") (text "two")
    ∷ comment (text "2") (text "one")
    ∷ comment (text "3") (text "two")
    ∷ []

abbrev doc : Text
doc = text "one two three"

abbrev quote : Text → Text
quote t = t

woven :
    insert_inline_markers doc (index_comments doc comments (text "3")) comments (text "3")
    ≡ some (text "one [Comment 1] two [Comment 2] [Active Comment] three")
unfolding insert_inline_markers index_comments
woven = refl

insert_inline_markers-weave_example :
    (ms : List Marker) × (ref_markers (index_comments doc comments (text "3")) ≡ some ms)
    × (insert_inline_markers doc (index_comments doc comments (text "3")) comments (text "3")
        ≡ some (weave (at_place (active_markers doc comments (text "3") ++ ms)) 0 doc))
insert_inline_markers-weave_example = insert_inline_markers-weave doc comments (text "3")

index_comments-Ordered_example :
    Ordered NotBehind (index_comments doc comments (text "3"))
    × (map (λ r. r.index) (index_comments doc comments (text "3"))
        ≡ count_from 0 (index_comments doc comments (text "3")))
    × Perm
        (map (λ r. r.comment) (index_comments doc comments (text "3")))
        (keep (is_other (text "3")) comments)
    × All (IsPlacedIn doc) (index_comments doc comments (text "3"))
index_comments-Ordered_example = index_comments-Ordered doc comments (text "3")

length-build_document_context_example :
    (limit : ℤ) × (r : Text) × (parse_content_max_size quote fault (itoa (ℤ.pos 2) ++ text "KB")
      ≡ ok limit)
    × (build_document_context quote doc comments (text "3") limit ≡ some r)
    × (length r ≤ 2 * 1024 + length truncated)
length-build_document_context_example =
    length-build_document_context quote fault 2 doc comments (text "3") (omega arith) (omega arith)

build_document_context-negative_example :
    (limit : ℤ) × (parse_content_max_size quote fault (itoa (ℤ.negsuc 0) ++ text "KB") ≡ ok limit)
    × (build_document_context quote doc comments (text "3") limit ≡ none)
build_document_context-negative_example =
    build_document_context-negative quote fault 0 doc comments (text "3") (omega arith)

abbrev change : Text → Change
change id = record { file_id = id; mime_type = some (text "application/vnd.google-apps.document") }

-- Two pages; the document "d" is on both.
abbrev changes : ℕ → Text → Result ChangePage
changes zero t = ok (record { changes = change (text "d") ∷ []; new_start = []; next = text "n" })
changes (suc n) t = ok (record {
  changes = change (text "d") ∷ change (text "e") ∷ [];
  new_start = text "s";
  next = [];
})

two_pages :
    Serves changes 0
      (text "t")
      ((change (text "d") ∷ []) ∷ (change (text "d") ∷ change (text "e") ∷ []) ∷ [])
      (text "s")
two_pages =
    one_more 0 (text "t") (change (text "d") ∷ []) b'n' [] _ (text "s") refl
      (last_page 1 (text "n") (change (text "d") ∷ change (text "e") ∷ []) b's' [] [] refl)

changed_documents-Serves_example :
    (found : List Text) × (changed_documents changes 5 0 (text "t") [] ≡ ok (found, text "s"))
    × Distinct found
    × ((id : Text)
        → has_id id found ≡ (
            has_id id []
            || any (names id) (
                joined changes
                  ((change (text "d") ∷ []) ∷ (change (text "d") ∷ change (text "e") ∷ []) ∷ []))))
changed_documents-Serves_example =
    changed_documents-Serves changes 5 0 (text "t")
      ((change (text "d") ∷ []) ∷ (change (text "d") ∷ change (text "e") ∷ []) ∷ []) (text "s") []
      two_pages (omega arith) tt

-- A handler that fails on every batch.
abbrev adapter : Setup
adapter = record {
  bot_email = text "bot@x";
  content_max_size = ℤ.pos 0;
  max_pages = 3;
  handler = λ es w. (err (fault (text "database is down")), w);
  later = λ t. if text_eq t (text "2026") then some (text "2026.001") else none;
  quote = quote;
}

abbrev page_of : List Comment → ℕ → Text → Result CommentPage
page_of cs n t = ok (record { comments = cs; next = [] })

abbrev drive : List Comment → Drive
drive cs = record {
  changes = changes;
  modified = λ file since. page_of cs;
  comments = λ file. page_of cs;
  export = λ file. ok doc;
}

-- Nothing was saved for the document before.
abbrev start : World
start = record world {
  db = set_adapter_state (text "googledocs") (text "d") (text "2025") world.db;
}

abbrev alone : Env
alone = record env { others = λ n db. db }

abbrev looked : World
looked = record start { step = suc start.step }

abbrev answered : Comment
answered = record (comment (text "1") (text "two")) {
  replies = record { content = text "Looking into this... bot@x"; author = some bot } ∷ [];
}

-- Nothing is modified after the comment.
abbrev modified_after : Text → List Comment
modified_after since =
    if text_eq since (text "2025") then comment (text "1") (text "two") ∷ [] else []

abbrev asked : Drive
asked = record (drive []) { modified = λ file since. page_of (modified_after since) }

-- The saved time is the only one after the comment's.
instant_of : Text → ℕ
unfolding text_eq
instant_of t = if text_eq t (text "2026.001") then 1 else 0

instant_of-comment : instant_of (text "2026") ≡ 0
unfolding instant_of
instant_of-comment = refl

instant_of-saved : instant_of (text "2026.001") ≡ 1
unfolding instant_of
instant_of-saved = refl

instant_of-before : (s : Text) → text_lt s (text "2026") ≡ true → instant_of s ≤ 0
unfolding instant_of text_lt
instant_of-before s h = elim (Bool-cases (text_eq s (text "2026.001"))) [
  | inr other ↦ rw other (omega arith)
  | inl same ↦
      let e = (text_eq_iff s (text "2026.001")).0 same in
      absurd (cc (ap (λ t. text_lt t (text "2026")) (sym e) ∙ h))
]

abbrev IsLater : Option Text → Type 0
IsLater none = Unit
IsLater (some t) = 0 < instant_of t

instant_of-later : (s t : Text) → adapter.later s ≡ some t → instant_of s < instant_of t
instant_of-later s t h = elim (Bool-cases (text_eq s (text "2026"))) [
  | inr other ↦ absurd (cc (rw other at h))
  | inl same ↦
      let e = (text_eq_iff s (text "2026")).0 same in
      let first : instant_of s ≡ 0 = ap instant_of e ∙ instant_of-comment in
      let made : some (text "2026.001") ≡ some t = (rw same at h) in
      let after : 0 < instant_of t = subst IsLater made (omega (arith, instant_of-saved)) in
      omega (arith, first, after)
]

at_2026 :
    (x : Comment) → In x (comment (text "1") (text "two") ∷ []) → x.modified_time ≡ text "2026"
at_2026 x (inl e) = ap (λ (c : Comment). c.modified_time) e
at_2026 x (inr i) = absurd i

abbrev clock : Clock adapter.later (comment (text "1") (text "two") ∷ [])
clock = record {
  instant = instant_of;
  up = λ s x k i h.
      let early = instant_of-before s (ap (text_lt s) (sym (at_2026 x i)) ∙ h) in
      omega (arith, early);
  down = λ s x k i h. omega (arith, ap instant_of (at_2026 x i), instant_of-comment);
  passes = instant_of-later;
}
