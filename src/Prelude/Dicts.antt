-- ===== src/Prelude/Dicts.antt =====
-- Go's `map[string]string` as an association list whose keys are the program's own literals.
use Prim.Native.String.{String}
use mathlib.Core.Path.{◌≡◌, refl}
use mathlib.Core.Option.{Option, none, some}
use mathlib.Core.List.{List, [], ◌∷◌}
use native.Mathlib.Omega.{arith}
use text.Mathlib.Text.{◌==◌ as str_eq}
use text.Mathlib.TextEquality.{eq_iff}
use ai_coworker.Prelude.Tests.{if◌then◌else◌}
use ai_coworker.Prelude.Texts.{Text}

abbrev pub Dict : Type 0
Dict = List (String × Text)

-- `v, ok := m[k]`
unfoldable pub lookup : String → Dict → Option Text
lookup k [] = none
lookup k ((j, v) ∷ m) = if str_eq j k then some v else lookup k m

-- `m[k]`, the empty text for a missing key.
unfoldable pub get : String → Dict → Text
unfolding lookup
get k m = elim (lookup k m) [ none ↦ [] | some v ↦ v ]

-- `m[k] = v`
unfoldable pub insert : String → Text → Dict → Dict
insert key value [] = (key, value) ∷ []
insert key value ((k, old) ∷ rest) =
    let kept = insert key value rest in
    if str_eq k key then (key, value) ∷ rest else (k, old) ∷ kept

pub lookup-insert :
    (key other : String) (value : Text) (dict : Dict)
    → lookup other (insert key value dict)
      ≡ (if str_eq key other then some value else lookup other dict)
unfolding insert lookup
lookup-insert key other value [] = refl
lookup-insert key other value ((k, old) ∷ rest) =
    ground
      (arith, eq_iff k other, eq_iff k key, eq_iff key other, lookup-insert key other value rest)
