-- ===== src/Adapter/GoogleDocs/Changes.antt =====
-- The documents that changed: the first part of processChanges of
-- internal/adapter/googledocs/googledocs.go, over the answers of the service.
pub mod Found
use ai_coworker.Prelude.{
  ℕ, zero, suc, ◌≡◌, ◌↔◌, refl, sym, ap, ◌∙◌, Bool, true, false, not, Option, none, some, List, [],
  ◌∷◌, ◌++◌, ◌&&◌, ◌||◌, Text, ◌≤◌, length, text, text_eq, text_eq_iff, text_eq_refl, is_empty, any,
  any-append, arith, Bool-cases, inl, inr, if◌then◌else◌,
}
use ai_coworker.Store.{Error, wrap, Result, ok, err}

-- `drive.Change`: the file, and its type if the file is there.
pub record Change : Type 0 where
  pub file_id : Text
  pub mime_type : Option Text

pub record ChangePage : Type 0 where
  pub changes : List Change
  pub new_start : Text
  pub next : Text

abbrev pub is_document : Option Text → Bool
is_document none = false
is_document (some t) = text_eq t (text "application/vnd.google-apps.document")

abbrev pub has_id : Text → List Text → Bool
has_id id ids = any (text_eq id) ids

-- The file of a change, if it is a document that was not seen.
abbrev pub with_change : List Text → Change → List Text
with_change ids c =
    if is_document c.mime_type && not (has_id c.file_id ids) then ids ++ c.file_id ∷ [] else ids

unfoldable pub add_documents : List Text → List Change → List Text
unfolding any text_eq
add_documents ids [] = ids
add_documents ids (c ∷ cs) = add_documents (with_change ids c) cs

abbrev pub Listing : Type 0
Listing = Result (List Text × Text)

-- Where the loop goes after a page: on with the next page, or out of it.
abbrev pub turned : Text → List Text → ChangePage → (Text → Listing) → Listing
turned token ids p later =
    if not (is_empty p.new_start)
    then ok (ids, p.new_start)
    else if not (is_empty p.next)
    then later p.next
    else ok (ids, token)

module _ (list : ℕ → Text → Result ChangePage) where
  abbrev pub received :
      Text → List Text → Result ChangePage → (List Text → Text → Listing) → Listing
  received token ids (err e) later = err (wrap (text "listing drive changes") e)
  received token ids (ok p) later =
      let found = add_documents ids p.changes in turned token found p (λ next. later found next)

  -- The documents and the token to go on from; `max` further pages are read.
  unfoldable pub changed_documents : ℕ → ℕ → Text → List Text → Listing
  unfolding add_documents
  changed_documents zero page token ids = ok (ids, token)
  changed_documents (suc max) page token ids =
      received token ids (list page token)
        (λ found next. changed_documents max (suc page) next found)
