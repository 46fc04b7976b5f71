-- ===== src/Adapter/GitHub/Ref.antt =====
-- The references of GitHub, internal/adapter/github/ref.go.
use ai_coworker.Prelude.{
  ◌≡◌, Option, none, some, [], ◌∷◌, ◌++◌, Text, Dict, text, lookup, get, insert, ℤ, itoa, atoi,
  FitsInt, atoi-itoa,
}
use ai_coworker.Domain.{ChannelRef}
use ai_coworker.Engine.Intent.{entries}

pub record GitHubRef : Type 0 where
  pub repo : Text
  pub issue_num : ℤ
  pub comment_id : ℤ
  pub comment_type : Text

unfoldable pub new_ref : Text → ℤ → ChannelRef
new_ref repo issue_num = record {
  channel = text "github";
  thread_key = repo ++ (text "#" ++ itoa issue_num);
  properties = some (("repo", repo) ∷ ("issue_num", itoa issue_num) ∷ []);
}

unfoldable pub with_comment : ChannelRef → ℤ → Text → ChannelRef
unfolding insert
with_comment ref id type = record ref {
  properties =
      some (insert "comment_type" type (insert "comment_id" (itoa id) (entries ref.properties)));
}

-- `if n, err := strconv.Atoi(s); err == nil { x = n }`
abbrev pub number_or_zero : Option ℤ → ℤ
number_or_zero none = ℤ.pos 0
number_or_zero (some n) = n

abbrev parsed : Dict → GitHubRef
parsed m = record {
  repo = get "repo" m;
  issue_num = number_or_zero (atoi (get "issue_num" m));
  comment_id = number_or_zero (atoi (get "comment_id" m));
  comment_type = get "comment_type" m;
}

unfoldable pub parse_ref : ChannelRef → GitHubRef
unfolding get lookup
parse_ref ref = elim ref.properties [
  | none ↦ record { repo = []; issue_num = ℤ.pos 0; comment_id = ℤ.pos 0; comment_type = [] }
  | some m ↦ parsed m
]

-- The repository, the issue, the comment and its type that a reference was made of are read back,
-- if the numbers fit the machine.
pub parse_ref-with_comment :
    (repo : Text) (num id : ℤ) (type : Text)
    → FitsInt num
    → FitsInt id
    → parse_ref (with_comment (new_ref repo num) id type)
      ≡ record { repo = repo; issue_num = num; comment_id = id; comment_type = type }
unfolding parse_ref with_comment new_ref insert get lookup
parse_ref-with_comment repo num id type fits_num fits_id =
    rw (atoi-itoa num fits_num, atoi-itoa id fits_id)
