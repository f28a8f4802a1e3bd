-- ===== src/Common/Maps.antt =====
-- JavaScript's `Map` with text keys: its entries in the order of their first insertion.
use Prim.Native.String.{String}
use mathlib.Core.Path.{◌≡◌, refl}
use mathlib.Core.List.{List, [], ◌∷◌}
use mathlib.Core.Option.{Option, none, some}
use text.Mathlib.TextEquality.{eq_iff}
use native.Mathlib.Omega.{arith}
use manifest_mcp_mono.Common.Booleans.{if◌then◌else◌, str_eq}

pub record Entry {ℓ} (V : Type ℓ) : Type ℓ where
  pub key : String
  pub held : V

module _ {ℓ} {V : Type ℓ} where
  unfoldable pub lookup : String → List (Entry V) → Option V
  lookup key [] = none
  lookup key (e ∷ rest) = if str_eq e.key key then some e.held else lookup key rest

  -- `set`: an old key keeps its place.
  unfoldable pub insert : String → V → List (Entry V) → List (Entry V)
  insert key x [] = record { key = key; held = x } ∷ []
  insert key x (e ∷ rest) =
      if str_eq e.key key then record { key = key; held = x } ∷ rest else e ∷ insert key x rest

  unfoldable pub delete : String → List (Entry V) → List (Entry V)
  delete key [] = []
  delete key (e ∷ rest) =
      let others = delete key rest in if str_eq e.key key then others else e ∷ others

  pub lookup-insert :
      (set asked : String) (x : V) (entries : List (Entry V))
      → lookup asked (insert set x entries)
        ≡ (if str_eq set asked then some x else lookup asked entries)
  unfolding lookup insert
  lookup-insert set asked x [] = refl
  lookup-insert set asked x (e ∷ rest) =
      let ih = lookup-insert set asked x rest in
      ground (arith, ih, eq_iff set asked, eq_iff e.key set, eq_iff e.key asked)

  pub lookup-delete :
      (gone asked : String) (entries : List (Entry V))
      → lookup asked (delete gone entries)
        ≡ (if str_eq gone asked then none else lookup asked entries)
  unfolding lookup delete
  lookup-delete gone asked [] = ground arith
  lookup-delete gone asked (e ∷ rest) =
      let ih = lookup-delete gone asked rest in
      ground (arith, ih, eq_iff gone asked, eq_iff e.key gone, eq_iff e.key asked)
