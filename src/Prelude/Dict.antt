-- ===== src/Prelude/Dict.antt =====
-- A Python dict with text keys, in insertion order.
use Prim.Native.String.{String}
use mathlib.Core.List.{List, [], ◌∷◌}
use mathlib.Core.Option.{Option, none, some}
use valsec.Prelude.Tests.{if◌then◌else◌}
use valsec.Prelude.Text.{◌is◌}

module _ {ℓ} {V : Type ℓ} where
  -- `m.get(k)`
  unfoldable pub lookup : String → List (String × V) → Option V
  lookup k [] = none
  lookup k ((j, v) ∷ m) = if j is k then some v else lookup k m

  -- `m.values()`
  abbrev pub values : List (String × V) → List V
  values [] = []
  values ((_, v) ∷ m) = v ∷ values m
