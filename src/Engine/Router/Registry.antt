-- ===== src/Engine/Router/Registry.antt =====
-- The adapters by name.
use ai_coworker.Prelude.{
  ◌≡◌, refl, some, List, [], ◌∷◌, Text, text_eq, text_eq_iff, arith, if◌then◌else◌,
}
use ai_coworker.Engine.Router.{
  Adapter, Router, put_adapter, register_adapter, find_adapter, get_adapter,
}

find_adapter-put_adapter :
    (name other : Text) (a : Adapter) (l : List (Text × Adapter))
    → find_adapter other (put_adapter name a l)
      ≡ (if text_eq name other then some a else find_adapter other l)
unfolding find_adapter put_adapter
find_adapter-put_adapter name other a [] = refl
find_adapter-put_adapter name other a ((k, b) ∷ l) = ground (
  arith,
  text_eq_iff name other,
  text_eq_iff k name,
  text_eq_iff k other,
  find_adapter-put_adapter name other a l,
)

-- After a registration the name of the adapter finds it, in place of any other that had the name,
-- and every other name finds what it found before.
pub get_adapter-register_adapter :
    (r : Router) (a : Adapter) (other : Text)
    → get_adapter (register_adapter a r) other
      ≡ (if text_eq a.name other then some a else get_adapter r other)
unfolding get_adapter register_adapter
get_adapter-register_adapter r a other = find_adapter-put_adapter a.name other a r.adapters
