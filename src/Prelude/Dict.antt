-- ===== src/Prelude/Dict.antt =====
-- A Go map as an association list with the keys that were inserted. Go ranges over a map in an
-- unspecified order, so code that ranges takes the order as an argument.
use mathlib.Core.Path.{◌≡◌, refl}
use mathlib.Core.Bool.{true, false}
use mathlib.Core.Option.{Option, none, some}
use mathlib.Core.List.{List, [], ◌∷◌, map}
use native.Mathlib.Omega.{arith}
use capyclaw.Prelude.Tests.{Eq, ◌==◌, if◌then◌else◌}

abbrev pub Map {ℓ κ} : Type ℓ → Type κ → Type (ℓ ⊔ κ)
Map K V = List (K × V)

module _ {ℓ κ} {K : Type ℓ} {V : Type κ} where
  abbrev pub values : Map K V → List V
  values m = map (λ (e : K × V). e.1) m

module _ {ℓ κ} {K : Type ℓ} {V : Type κ} ⦃eq : Eq K⦄ where
  -- `v, ok := m[k]`
  unfoldable pub lookup : K → Map K V → Option V
  lookup key [] = none
  lookup key ((key', val) ∷ rest) = if key' == key then some val else lookup key rest

  -- `m[k] = v`
  unfoldable pub insert : K → V → Map K V → Map K V
  insert key new ((key', val) ∷ rest) =
      if key' == key then (key, new) ∷ rest else (key', val) ∷ insert key new rest
  insert key new [] = (key, new) ∷ []

  -- `delete(m, k)`
  unfoldable pub delete : K → Map K V → Map K V
  delete key [] = []
  delete key ((key', val) ∷ rest) =
      let others = delete key rest in if key' == key then others else (key', val) ∷ others

  pub lookup-insert :
      (key asked : K) (new : V) (m : Map K V)
      → lookup asked (insert key new m) ≡ (if key == asked then some new else lookup asked m)
  unfolding insert lookup
  lookup-insert key asked new ((key', val) ∷ rest) = ground (
    arith,
    lookup-insert key asked new rest,
    eq.same_iff key' key,
    eq.same_iff key' asked,
    eq.same_iff key asked,
  )
  lookup-insert key asked new [] = refl

  pub lookup-delete :
      (key asked : K) (m : Map K V)
      → lookup asked (delete key m) ≡ (if key == asked then none else lookup asked m)
  unfolding delete lookup
  lookup-delete key asked ((key', val) ∷ rest) = ground (
    arith,
    lookup-delete key asked rest,
    eq.same_iff key' key,
    eq.same_iff key' asked,
    eq.same_iff key asked,
  )
  lookup-delete key asked [] = ground arith

  pub lookup-insert_same :
      (key asked : K) (new : V) (m : Map K V)
      → (key == asked) ≡ true
      → lookup asked (insert key new m) ≡ some new
  lookup-insert_same key asked new m h = ground (arith, lookup-insert key asked new m, h)

  pub lookup-insert_other :
      (key asked : K) (new : V) (m : Map K V)
      → (key == asked) ≡ false
      → lookup asked (insert key new m) ≡ lookup asked m
  lookup-insert_other key asked new m h = ground (arith, lookup-insert key asked new m, h)

  pub lookup-delete_same :
      (key asked : K) (m : Map K V) → (key == asked) ≡ true → lookup asked (delete key m) ≡ none
  lookup-delete_same key asked m h = ground (arith, lookup-delete key asked m, h)

  pub lookup-delete_other :
      (key asked : K) (m : Map K V)
      → (key == asked) ≡ false
      → lookup asked (delete key m) ≡ lookup asked m
  lookup-delete_other key asked m h = ground (arith, lookup-delete key asked m, h)
