-- ===== src/Store/Threads.antt =====
-- Threads and messages.
use ai_coworker.Prelude.{
  ℕ, Bool, Option, none, some, List, [], ◌∷◌, ◌++◌, ◌&&◌, map, Text, text, text_eq, find, keep, any,
  if◌then◌else◌, leb,
}
use ai_coworker.Domain.{ThreadStatus, Thread, Message}
use ai_coworker.Store.Errors.{not_found, fault, wrap, Result, ok, err}
use ai_coworker.Store.Tables.{Db, stored}

abbrev has_id : Text → Thread → Bool
has_id id t = text_eq t.id id

abbrev pub has_key : Text → Text → Thread → Bool
has_key channel key t =
    text_eq t.channel_ref.channel channel && text_eq t.channel_ref.thread_key key

-- A row, or the wrapped `ErrNotFound`.
abbrev or_not_found {ℓ} : {A : Type ℓ} → Text → Option A → Result A
or_not_found what none = err (wrap what not_found)
or_not_found what (some a) = ok a

unfoldable pub get_thread : Text → Db → Result Thread
unfolding find
get_thread id db = or_not_found (text "thread " ++ id) (find (has_id id) db.threads)

unfoldable pub get_thread_by_channel_ref : Text → Text → Db → Result Thread
unfolding find
get_thread_by_channel_ref channel key db =
    or_not_found (text "thread " ++ channel ++ text "/" ++ key)
      (find (has_key channel key) db.threads)

-- The thread with its new id and times, as the caller's pointer holds it afterwards.
unfoldable pub stamp_thread : Text → ℕ → Thread → Thread
stamp_thread id now t = record t { id = id; created_at = now; updated_at = now }

-- The row as it is written.
unfoldable pub thread_row : Thread → Thread
unfolding stored
thread_row t = record t {
  channel_ref = record (t.channel_ref) { properties = stored t.channel_ref.properties };
}

-- The unique indexes on the id and on (channel, thread_key) refuse a second row.
unfoldable pub create_thread : Text → ℕ → Thread → Db → Result Thread × Db
unfolding any stamp_thread thread_row
create_thread id now t db =
    if any (has_id id) db.threads
    then (err (wrap (text "inserting thread") (fault (text "duplicate key"))), db)
    else if any (has_key t.channel_ref.channel t.channel_ref.thread_key) db.threads
    then (err (wrap (text "inserting thread") (fault (text "duplicate key"))), db)
    else (
      ok (stamp_thread id now t),
      record db { threads = db.threads ++ thread_row (stamp_thread id now t) ∷ [] },
    )

abbrev set_status : Text → ThreadStatus → ℕ → Thread → Thread
set_status id status now t =
    if has_id id t then record t { status = status; updated_at = now } else t

unfoldable pub update_thread_status : Text → ThreadStatus → ℕ → Db → Result (Unit {0}) × Db
unfolding any
update_thread_status id status now db =
    if any (has_id id) db.threads
    then (ok tt, record db { threads = map (set_status id status now) db.threads })
    else (err (wrap (text "thread " ++ id) not_found), db)

-- `ORDER BY created_at`: insertion after the rows that are not later.
unfoldable pub insert_message : Message → List Message → List Message
insert_message m [] = m ∷ []
insert_message m (n ∷ ns) =
    let rest = insert_message m ns in if leb n.created_at m.created_at then n ∷ rest else m ∷ n ∷ ns

unfoldable pub sort_messages : List Message → List Message
unfolding insert_message
sort_messages [] = []
sort_messages (m ∷ ms) = insert_message m (sort_messages ms)

unfoldable pub get_messages : Text → Db → Result (List Message)
unfolding keep sort_messages
get_messages thread_id db =
    ok (sort_messages (keep (λ m. text_eq m.thread_id thread_id) db.messages))

abbrev pub has_message_id : Text → Message → Bool
has_message_id id m = text_eq m.id id

-- The primary key refuses a second row of the id, the foreign key a message of no thread.
unfoldable pub create_message : Text → ℕ → Message → Db → Result Message × Db
unfolding any
create_message id now m db =
    let row = record m { id = id; created_at = now } in
    if any (has_message_id id) db.messages
    then (err (wrap (text "inserting message") (fault (text "duplicate key"))), db)
    else if any (has_id m.thread_id) db.threads
    then (ok row, record db { messages = db.messages ++ row ∷ [] })
    else (err (wrap (text "inserting message") (fault (text "foreign key"))), db)
