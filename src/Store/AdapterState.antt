-- ===== src/Store/AdapterState.antt =====
-- The key-value rows that the adapters keep.
use ai_coworker.Prelude.{
  Bool, Option, none, some, List, [], ◌∷◌, ◌++◌, ◌&&◌, Text, text, text_eq, find, if◌then◌else◌,
}
use ai_coworker.Store.Errors.{not_found, wrap, Result, ok, err}
use ai_coworker.Store.Tables.{StateRow, Db}

abbrev pub has_state : Text → Text → StateRow → Bool
has_state adapter key r = text_eq r.adapter adapter && text_eq r.key key

abbrev pub state_value : Text → Option StateRow → Result Text
state_value what none = err (wrap (text "adapter state " ++ what) not_found)
state_value what (some r) = ok r.value

unfoldable pub get_adapter_state : Text → Text → Db → Result Text
unfolding find
get_adapter_state adapter key db =
    state_value (adapter ++ text "/" ++ key) (find (has_state adapter key) db.adapter_state)

-- `INSERT … ON CONFLICT (adapter, key) DO UPDATE`
unfoldable pub upsert : Text → Text → Text → List StateRow → List StateRow
upsert adapter key value [] = record { adapter = adapter; key = key; value = value } ∷ []
upsert adapter key value (r ∷ rs) =
    if has_state adapter key r
    then record r { value = value } ∷ rs
    else r ∷ upsert adapter key value rs

unfoldable pub set_adapter_state : Text → Text → Text → Db → Db
unfolding upsert
set_adapter_state adapter key value db = record db {
  adapter_state = upsert adapter key value db.adapter_state;
}
