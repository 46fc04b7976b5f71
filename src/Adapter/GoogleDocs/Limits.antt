-- ===== src/Adapter/GoogleDocs/Limits.antt =====
-- The sizes that the configuration can give, and what they do to the context of a comment.
use ai_coworker.Prelude.{
  ℕ, suc, ◌+◌, ◌*◌, ◌≤◌, ◌<◌, ◌≡◌, ap, ◌∙◌, none, some, List, ◌++◌, arith, Text, text, ℤ, int_limit,
  itoa, length, length-append, inl, inr,
}
use ai_coworker.Store.{Error, ok}
use ai_coworker.Adapter.GoogleDocs.Comments.{Comment}
use ai_coworker.Adapter.GoogleDocs.Context.{
  build_document_context, build_document_context-IsCutOf, build_document_context-negsuc, truncated,
}
use ai_coworker.Adapter.GoogleDocs.Size.{
  parse_content_max_size, parse_content_max_size-itoa, times, times-pos, times-negsuc,
}

module _ (quote : Text → Text) (refusal : Text → Error) where
  -- A size of `n` kilobytes, if it is not 0 and fits int64, bounds every context: it is made without
  -- a fault and has at most that many bytes and the notice.
  pub length-build_document_context :
      (n : ℕ) (doc : Text) (cs : List Comment) (trigger : Text)
      → 0 < n
      → n * 1024 < int_limit
      → (limit : ℤ) × (r : Text) × (parse_content_max_size quote refusal
            (itoa (ℤ.pos n) ++ text "KB")
          ≡ ok limit)
        × (build_document_context quote doc cs trigger limit ≡ some r)
        × (length r ≤ n * 1024 + length truncated)
  length-build_document_context n doc cs trigger positive fits =
      let read = (parse_content_max_size-itoa quote refusal (ℤ.pos n) (omega arith)).0 in
      let (ms, r, made, built, is_cut) =
        build_document_context-IsCutOf quote doc cs trigger (n * 1024) in
      (
        ℤ.pos (n * 1024),
        r,
        read ∙ ap ok (times-pos n 1024 fits (omega arith)),
        built,
        elim is_cut [
          | inl (whole, inl zero_limit) ↦ absurd (omega arith)
          | inl (whole, inr short) ↦ rw whole (omega arith)
          | inr (over, before, after, parts, size, e) ↦
              rw e (omega (arith, length-append before truncated))
        ],
      )

  -- A negative size is accepted, and with it the code faults on every document.
  pub build_document_context-negative :
      (n : ℕ) (doc : Text) (cs : List Comment) (trigger : Text)
      → suc n * 1024 ≤ int_limit
      → (limit : ℤ) × (parse_content_max_size quote refusal (itoa (ℤ.negsuc n) ++ text "KB")
          ≡ ok limit)
        × (build_document_context quote doc cs trigger limit ≡ none)
  build_document_context-negative n doc cs trigger fits =
      let read = (parse_content_max_size-itoa quote refusal (ℤ.negsuc n) (omega arith)).0 in
      (
        times (ℤ.negsuc n) 1024,
        read,
        rw (times-negsuc n fits) (build_document_context-negsuc quote doc cs trigger _),
      )
