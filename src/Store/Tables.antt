-- ===== src/Store/Tables.antt =====
-- The tables, and encoding of a map to the JSON column and back.
use ai_coworker.Prelude.{Option, none, some, List, [], Text, Dict}
use ai_coworker.Domain.{Thread, Message, Task}

pub record StateRow : Type 0 where
  pub adapter : Text
  pub key : Text
  pub value : Text

pub record Db : Type 0 where
  pub threads : List Thread
  pub messages : List Message
  pub tasks : List Task
  pub adapter_state : List StateRow

-- What `encodeMetadata` and `decodeMetadata` make of a map that is written and read back: a nil map
-- becomes the empty one, and JSON keeps any other map.
unfoldable pub stored : Option Dict → Option Dict
stored none = some []
stored (some m) = some m
