-- ===== src/Adapter/GoogleDocs.antt =====
-- The references of Google Docs, internal/adapter/googledocs/ref.go.
mod Tests
pub mod Comments
pub mod Markers
pub mod Context
pub mod Size
pub mod Limits
pub mod Pages
pub mod Changes
pub mod Watch
pub mod Check
use ai_coworker.Prelude.{◌≡◌, refl, some, [], ◌∷◌, ◌++◌, Text, text, lookup, get}
use ai_coworker.Domain.{ChannelRef}
use ai_coworker.Engine.Intent.{entries}

pub record GoogleDocsRef : Type 0 where
  pub document_id : Text
  pub comment_id : Text

unfoldable pub new_ref : Text → Text → ChannelRef
new_ref document comment = record {
  channel = text "googledocs";
  thread_key = document ++ (text "#" ++ comment);
  properties = some (("document_id", document) ∷ ("comment_id", comment) ∷ []);
}

unfoldable pub parse_ref : ChannelRef → GoogleDocsRef
unfolding get lookup
parse_ref ref = record {
  document_id = get "document_id" (entries ref.properties);
  comment_id = get "comment_id" (entries ref.properties);
}

-- The document and the comment that a reference was made of are read back.
pub parse_ref-docs :
    (document comment : Text)
    → parse_ref (new_ref document comment) ≡ record { document_id = document; comment_id = comment }
unfolding parse_ref new_ref get lookup
parse_ref-docs document comment = refl
