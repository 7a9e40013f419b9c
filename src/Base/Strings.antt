-- ===== src/Base/Strings.antt =====
-- `std::map` from texts, of which the parsers use the lookup and the assignment.
use Prim.Native.String.{String}
use text.Mathlib.Text.{◌==◌ as str_eq}
use mathlib.Core.Option.{Option, none, some}
use mathlib.Core.List.{List, [], ◌∷◌}
use nvmordering.Base.Tests.{if◌then◌else◌}

module _ {ℓ} {V : Type ℓ} where
  unfoldable pub lookup_str : String → List (String × V) → Option V
  lookup_str k [] = none
  lookup_str k ((j, v) ∷ m) = if str_eq j k then some v else lookup_str k m

  unfoldable pub insert_str : String → V → List (String × V) → List (String × V)
  insert_str k v [] = (k, v) ∷ []
  insert_str k v ((j, w) ∷ m) = if str_eq j k then (k, v) ∷ m else (j, w) ∷ insert_str k v m
