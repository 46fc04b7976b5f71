-- ===== src/Adapter/GoogleDocs/Pages.antt =====
-- The pages of comments: the loops of fetchAllComments and checkDocumentComments of
-- internal/adapter/googledocs/googledocs.go. What the service answers is an argument, by the number
-- of the page and the token that asks for it.
use ai_coworker.Prelude.{ℕ, zero, suc, ◌≡◌, refl, sym, ap, List, [], ◌∷◌, ◌++◌, Text, take}
use mathlib.Core.List.{append-nil}
use ai_coworker.Store.{wrap, Result, ok, err}
use ai_coworker.Adapter.GoogleDocs.Comments.{Comment}

pub record CommentPage : Type 0 where
  pub comments : List Comment
  pub next : Text

-- A page, and the rest if its token names one.
abbrev pub continued : List Comment → Text → Result (List Comment) → Result (List Comment)
continued cs [] rest = ok cs
continued cs (c ∷ token) (ok more) = ok (cs ++ more)
continued cs (c ∷ token) (err e) = err e

take-nil : (k : ℕ) → take {A = List Comment} k [] ≡ []
take-nil zero = refl
take-nil (suc k) = refl

-- `what` names the call in the error. The number of further pages is `max`.
module _ (list : ℕ → Text → Result CommentPage) (what : Text) where
  abbrev pub turned : Result CommentPage → (Text → Result (List Comment)) → Result (List Comment)
  turned (err e) later = err (wrap what e)
  turned (ok p) later = continued p.comments p.next (later p.next)

  unfoldable pub list_pages : ℕ → ℕ → Text → Result (List Comment)
  list_pages zero page token = ok []
  list_pages (suc max) page token =
      turned (list page token) (λ next. list_pages max (suc page) next)

  -- The service answers with these pages, from a number and a token on.
  pub data Serves : ℕ → Text → List (List Comment) → Type 0 where
    last_page :
        (n : ℕ) (t : Text) (cs : List Comment)
        → list n t ≡ ok (record { comments = cs; next = [] })
        → Serves n t (cs ∷ [])
    one_more :
        (n : ℕ) (t : Text) (cs : List Comment) (c : ℕ) (next : Text) (ps : List (List Comment))
        → list n t ≡ ok (record { comments = cs; next = c ∷ next })
        → Serves (suc n) (c ∷ next) ps
        → Serves n t (cs ∷ ps)

  abbrev pub joined : List (List Comment) → List Comment
  joined [] = []
  joined (cs ∷ ps) = cs ++ joined ps

  -- The comments of the first pages are listed, in order, and those of pages past the limit are not;
  -- with a limit of at least their number these are all comments.
  pub list_pages-Serves :
      (max n : ℕ) (t : Text) (ps : List (List Comment))
      → Serves n t ps
      → list_pages max n t ≡ ok (joined (take max ps))
  unfolding list_pages
  list_pages-Serves zero n t ps s = refl
  list_pages-Serves (suc max) n t _ (last_page _ _ cs e) =
      rw (e, take-nil max) (ap ok (sym (append-nil cs)))
  list_pages-Serves (suc max) n t _ (one_more _ _ cs c next ps e s) =
      rw (e, list_pages-Serves max (suc n) (c ∷ next) ps s) refl
