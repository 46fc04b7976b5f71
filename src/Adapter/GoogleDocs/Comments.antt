-- ===== src/Adapter/GoogleDocs/Comments.antt =====
-- The comments of a document, as internal/adapter/googledocs/googledocs.go reads them. A text is the
-- list of its bytes.
use ai_coworker.Prelude.{
  ◌≡◌, refl, Bool, true, false, not, Option, none, some, List, [], ◌∷◌, ◌++◌, ◌&&◌, ◌||◌, Text,
  text, text_eq, is_empty, trim_space, newline, if◌then◌else◌, arith,
}
use ai_coworker.Adapter.Mention.{contains}

-- `drive.User`, `drive.Reply` and `drive.Comment`, as far as they are read; `quoted` is the value of
-- the quoted content, if there is one.
pub record Author : Type 0 where
  pub me : Bool
  pub email : Text
  pub display_name : Text

pub record DocReply : Type 0 where
  pub content : Text
  pub author : Option Author

pub record Comment : Type 0 where
  pub id : Text
  pub content : Text
  pub resolved : Bool
  pub author : Option Author
  pub replies : List DocReply
  pub quoted : Option Text
  pub html_content : Text
  pub modified_time : Text

-- `replies[len(replies)-1]`, if there are replies.
unfoldable pub last_reply : List DocReply → Option DocReply
last_reply [] = none
last_reply (r ∷ []) = some r
last_reply (r ∷ s ∷ rs) = last_reply (s ∷ rs)

abbrev pub said_last : Comment → Option DocReply → Text
said_last c none = c.content
said_last c (some r) = r.content

unfoldable pub extract_content : Comment → Text
unfolding last_reply
extract_content c = trim_space (said_last c (last_reply c.replies))

unfoldable pub is_action_item_assigned_to : Comment → Text → Bool
is_action_item_assigned_to c email =
    if is_empty c.html_content
    then false
    else contains c.html_content email && contains c.html_content (text "action_item")

abbrev pub is_me : Option Author → Bool
is_me none = false
is_me (some a) = a.me

abbrev pub by_me : Option DocReply → Bool
by_me none = false
by_me (some r) = is_me r.author

abbrev pub has_email : Option Author → Text → Bool
has_email none email = false
has_email (some a) email = text_eq a.email email

unfoldable pub is_relevant_comment : Text → Comment → Bool
unfolding last_reply extract_content is_action_item_assigned_to
is_relevant_comment bot c =
    if by_me (last_reply c.replies)
    then false
    else if has_email c.author bot
    then false
    else if contains (extract_content c) bot
    then true
    else is_action_item_assigned_to c bot

-- The comments that events are made of.
unfoldable pub is_handed : Text → Comment → Bool
unfolding is_relevant_comment extract_content
is_handed bot c =
    if c.resolved || not (is_relevant_comment bot c)
    then false
    else not (is_empty (extract_content c))

abbrev pub author_name : Option Author → Text
author_name none = text "Unknown"
author_name (some a) = if is_empty a.display_name then text "Unknown" else a.display_name

-- `%s[%s]: %s\n`
abbrev pub said : Text → Text → Text → Text
said indent name content =
    indent ++ (text "[" ++ (name ++ (text "]: " ++ (content ++ newline ∷ []))))

unfoldable pub reply_lines : Text → List DocReply → Text
reply_lines indent [] = []
reply_lines indent (r ∷ rs) = said indent (author_name r.author) r.content ++ reply_lines indent rs

unfoldable pub format_comment_thread : Comment → Text
unfolding reply_lines
format_comment_thread c =
    said [] (author_name c.author) c.content ++ reply_lines (text "  ") c.replies

pub last_reply-append : (rs : List DocReply) (r : DocReply) → last_reply (rs ++ r ∷ []) ≡ some r
unfolding last_reply
last_reply-append [] r = refl
last_reply-append (s ∷ []) r = refl
last_reply-append (s ∷ t ∷ rs) r = last_reply-append (t ∷ rs) r

-- A comment with one more reply.
abbrev pub answered : Comment → DocReply → Comment
answered c r = record c { replies = c.replies ++ r ∷ [] }

-- A comment that the bot itself replied to last is not handed on, whatever its own reply says: the
-- adapter does not answer its acknowledgements and its answers.
pub is_handed-answered :
    (bot : Text) (c : Comment) (r : DocReply)
    → is_me r.author ≡ true
    → is_handed bot (answered c r) ≡ false
unfolding is_handed
is_handed-answered bot c r mine =
    let last : by_me (last_reply (c.replies ++ r ∷ [])) ≡ true =
      rw (last_reply-append c.replies r) mine in
    rw last (ground arith)
