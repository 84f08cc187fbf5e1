-- ===== src/Base/Dict.antt =====
-- std::unordered_map with text keys, as an association list. The order of iteration, which the
-- standard leaves open, is the order of the list.
use Prim.Native.String.{String}
use mathlib.Core.Path.{◌≡◌, refl}
use mathlib.Core.Logic.{◌≢◌, ◌↔◌}
use mathlib.Core.Option.{Option, none, some}
use mathlib.Core.List.{List, [], ◌∷◌}
use native.Mathlib.Omega.{arith}
use text.Mathlib.Text.{◌==◌}
use text.Mathlib.TextEquality.{eq_iff}
use programmable_caching.Base.Tests.{if◌then◌else◌, Has}

abbrev pub Dict {ℓ} : Type ℓ → Type ℓ
Dict V = List (String × V)

abbrev pub keys {ℓ} : {V : Type ℓ} → Dict V → List String
keys [] = []
keys ((k, _) ∷ d) = k ∷ keys d

module _ {ℓ} {V : Type ℓ} where
  -- `d.find(k)`
  unfoldable pub lookup : String → Dict V → Option V
  lookup k [] = none
  lookup k ((j, v) ∷ d) = if j == k then some v else lookup k d

  -- `d[k] = v`
  unfoldable pub insert : String → V → Dict V → Dict V
  insert k v [] = (k, v) ∷ []
  insert k v ((j, w) ∷ d) = if j == k then (k, v) ∷ d else (j, w) ∷ insert k v d

  -- `d.erase(k)`
  unfoldable pub erase : String → Dict V → Dict V
  erase k [] = []
  erase k ((j, w) ∷ d) = let rest = erase k d in if j == k then rest else (j, w) ∷ rest

  -- What `d[k]` reads: a missing key is first given the default value.
  unfoldable pub get_or : String → V → Dict V → V
  get_or k v d = elim (lookup k d) [ none ↦ v | some w ↦ w ]

  pub lookup-insert :
      (j k : String) (v : V) (d : Dict V)
      → lookup j (insert k v d) ≡ (if k == j then some v else lookup j d)
  unfolding lookup insert
  lookup-insert j k v [] = refl
  lookup-insert j k v ((i, w) ∷ d) =
      ground (arith, eq_iff k j, eq_iff i k, eq_iff i j, lookup-insert j k v d)

  pub lookup-erase :
      (j k : String) (d : Dict V) → lookup j (erase k d) ≡ (if k == j then none else lookup j d)
  unfolding lookup erase
  lookup-erase j k [] = ground arith
  lookup-erase j k ((i, w) ∷ d) =
      ground (arith, eq_iff k j, eq_iff i k, eq_iff i j, lookup-erase j k d)

  pub get_or-insert :
      (j k : String) (e v : V) (d : Dict V)
      → get_or j e (insert k v d) ≡ (if k == j then v else get_or j e d)
  unfolding get_or
  get_or-insert j k e v d = ground (arith, lookup-insert j k v d)

  -- The keys that iteration meets are those that a lookup finds.
  pub Has-keys : (k : String) (d : Dict V) → Has k (keys d) ↔ (lookup k d ≢ none)
  unfolding lookup
  Has-keys k [] = (λ h. absurd h, λ h. absurd (h refl))
  Has-keys k ((j, v) ∷ d) = ground (arith, eq_iff j k, Has-keys k d)

-- No key stands twice; a real map never holds one twice.
abbrev pub UniqueKeys {ℓ} : {V : Type ℓ} → Dict V → Type ℓ
UniqueKeys [] = Unit
UniqueKeys ((k, _) ∷ d) = (lookup k d ≡ none) × UniqueKeys d

pub insert-UniqueKeys {ℓ} :
    {V : Type ℓ} (k : String) (v : V) (d : Dict V) → UniqueKeys d → UniqueKeys (insert k v d)
unfolding insert lookup
insert-UniqueKeys k v [] u = (refl, tt)
insert-UniqueKeys k v ((j, w) ∷ d) (fresh, u) =
    ground (arith, insert-UniqueKeys k v d u, lookup-insert j k v d, eq_iff k j, eq_iff j k)

pub ruleset dict_laws = (lookup-insert, lookup-erase, get_or-insert)
