-- ===== src/Prelude/Dict.antt =====
-- Python's `dict` with text keys, as an association list in the order of insertion.
use Prim.Native.String.{String}
use mathlib.Core.Path.{◌≡◌, refl}
use mathlib.Core.Bool.{Bool, true, false}
use mathlib.Core.Option
use mathlib.Core.Option.{Option, none, some}
use mathlib.Core.List.{List, [], ◌∷◌}
use native.Mathlib.Omega.{arith}
use text.Mathlib.Text.{◌==◌}
use text.Mathlib.TextEquality.{eq_iff}
use polymetis_franka_teleop.Prelude.Tests.{if◌then◌else◌}

abbrev pub Dict {ℓ} : Type ℓ → Type ℓ
Dict V = List (String × V)

module _ {ℓ} {V : Type ℓ} where
  -- d.get(k)
  unfoldable pub lookup : String → Dict V → Option V
  lookup k [] = none
  lookup k ((j, v) ∷ d) = if j == k then some v else lookup k d

  -- k in d
  unfoldable pub member : String → Dict V → Bool
  member k [] = false
  member k ((j, v) ∷ d) = if j == k then true else member k d

  -- d[k] = v
  unfoldable pub insert : String → V → Dict V → Dict V
  insert k v [] = (k, v) ∷ []
  insert k v ((j, w) ∷ d) = if j == k then (k, v) ∷ d else (j, w) ∷ insert k v d

  -- `d[k]` changed in place by `f`, where the key is there
  unfoldable pub modify : String → (V → V) → Dict V → Dict V
  modify k f [] = []
  modify k f ((j, v) ∷ d) = if j == k then (j, f v) ∷ d else (j, v) ∷ modify k f d

  pub lookup-insert :
      (k j : String) (v : V) (d : Dict V)
      → lookup j (insert k v d) ≡ (if k == j then some v else lookup j d)
  unfolding lookup insert
  lookup-insert k j v [] = refl
  lookup-insert k j v ((i, w) ∷ d) =
      ground (arith, eq_iff k j, eq_iff i k, eq_iff i j, lookup-insert k j v d)

  pub lookup-modify :
      (k j : String) (f : V → V) (d : Dict V)
      → lookup j (modify k f d) ≡ (if k == j then Option.map f (lookup j d) else lookup j d)
  unfolding lookup modify
  lookup-modify k j f [] = ground arith
  lookup-modify k j f ((i, w) ∷ d) =
      ground (arith, eq_iff k j, eq_iff i k, eq_iff i j, lookup-modify k j f d)

  pub member-eq-lookup :
      (k : String) (d : Dict V) → member k d ≡ elim (lookup k d) [ none ↦ false | some v ↦ true ]
  unfolding lookup member
  member-eq-lookup k [] = refl
  member-eq-lookup k ((i, w) ∷ d) = ground (arith, member-eq-lookup k d)

-- Applies `f` to each value.
unfoldable pub map_values {ℓ κ} : {V : Type ℓ} {W : Type κ} → (V → W) → Dict V → Dict W
map_values f [] = []
map_values f ((k, v) ∷ d) = (k, f v) ∷ map_values f d

pub lookup-map_values {ℓ κ} :
    {V : Type ℓ} {W : Type κ} (f : V → W) (k : String) (d : Dict V)
    → lookup k (map_values f d) ≡ Option.map f (lookup k d)
unfolding lookup map_values
lookup-map_values f k [] = ground arith
lookup-map_values f k ((j, v) ∷ d) = ground (arith, lookup-map_values f k d)
