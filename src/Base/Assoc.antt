-- ===== src/Base/Assoc.antt =====
-- A `dict` with text keys, as the list of its entries in the order of insertion.
use tak_mdm.Base.Text.{text_eq}
use tak_mdm.Base.Tests.{if◌then◌else◌}
use mathlib.Core.List.{List, [], ◌∷◌, map}
use mathlib.Core.Option.{Option, none, some}
use Prim.Native.String.{String}

module _ {ℓ} {V : Type ℓ} where
  -- `d.get(k)`
  abbrev pub get : String → List (String × V) → Option V
  get k [] = none
  get k ((j, v) ∷ d) = if text_eq j k then some v else get k d

  abbrev pub keys : List (String × V) → List String
  keys = map (λ e. e.0)
