-- ===== src/Store/State.antt =====
-- What the adapters read of what they wrote.
use ai_coworker.Prelude.{
  ◌≡◌, Option, none, some, List, [], ◌∷◌, ◌++◌, ◌&&◌, Text, text, text_eq, text_eq_iff, find, arith,
  if◌then◌else◌,
}
use ai_coworker.Store.Errors.{ok}
use ai_coworker.Store.Tables.{StateRow, Db}
use ai_coworker.Store.AdapterState.{
  has_state, state_value, get_adapter_state, upsert, set_adapter_state,
}

abbrev with_value : Text → Text → Text → Option StateRow → Option StateRow
with_value adapter key value none = some (record { adapter = adapter; key = key; value = value })
with_value adapter key value (some r) = some (record r { value = value })

state_value-upsert :
    (what adapter key value other k : Text) (rs : List StateRow)
    → state_value what (find (has_state other k) (upsert adapter key value rs)) ≡ (
        if text_eq adapter other && text_eq key k
        then ok value
        else state_value what (find (has_state other k) rs))
unfolding upsert find
state_value-upsert what adapter key value other k [] = ground arith
state_value-upsert what adapter key value other k (r ∷ rs) = ground (
  arith,
  text_eq_iff adapter other,
  text_eq_iff key k,
  text_eq_iff r.adapter adapter,
  text_eq_iff r.key key,
  text_eq_iff r.adapter other,
  text_eq_iff r.key k,
  state_value-upsert what adapter key value other k rs,
)

-- After a value was set, its adapter reads it under its key, whether or not the row was there, and
-- every other adapter and key reads what it read before.
pub get_adapter_state-set_adapter_state :
    (adapter key value other k : Text) (db : Db)
    → get_adapter_state other k (set_adapter_state adapter key value db)
      ≡ (if text_eq adapter other && text_eq key k then ok value else get_adapter_state other k db)
unfolding get_adapter_state set_adapter_state
get_adapter_state-set_adapter_state adapter key value other k db =
    state_value-upsert (other ++ text "/" ++ k) adapter key value other k db.adapter_state
