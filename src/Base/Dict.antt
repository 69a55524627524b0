-- ===== src/Base/Dict.antt =====
-- `HashMap`s and database tables with a unique key: association lists, one entry for a key.
use Prim.Native.Nat.{◌+◌, ◌≤◌}
use mathlib.Core.Path.{◌≡◌, refl}
use mathlib.Core.Bool.{true, false}
use mathlib.Core.List.{List, [], ◌∷◌}
use mathlib.Core.Option.{Option, none, some}
use native.Mathlib.Omega.{arith}
use nextapi.Base.Tests.{if◌then◌else◌}
use nextapi.Base.Lists.{length}
use nextapi.Base.Equality.{Eq, ◌==◌}

abbrev pub Table {ℓ κ} : Type ℓ → Type κ → Type (ℓ ⊔ κ)
Table K V = List (K × V)

pub eq_self {ℓ} : {K : Type ℓ} ⦃e : Eq K⦄ (k : K) → (k == k) ≡ true
eq_self ⦃e⦄ k = (e.test_iff k k).1 refl

module _ {ℓ κ} {K : Type ℓ} {V : Type κ} ⦃e : Eq K⦄ where
  unfoldable pub lookup : K → Table K V → Option V
  lookup k [] = none
  lookup k ((j, v) ∷ m) = if j == k then some v else lookup k m

  -- Replaces the value of a key, or adds the key.
  unfoldable pub insert : K → V → Table K V → Table K V
  insert put new [] = (put, new) ∷ []
  insert put new ((held, old) ∷ rest) =
      if held == put then (put, new) ∷ rest else (held, old) ∷ insert put new rest

  unfoldable pub remove : K → Table K V → Table K V
  remove k [] = []
  remove k ((j, w) ∷ m) = let rest = remove k m in if j == k then rest else (j, w) ∷ rest

  pub lookup-insert :
      (put asked : K) (new : V) (m : Table K V)
      → lookup asked (insert put new m) ≡ (if put == asked then some new else lookup asked m)
  unfolding insert lookup
  lookup-insert put asked new [] = refl
  lookup-insert put asked new ((held, old) ∷ rest) = ground (
    arith,
    e.test_iff put asked,
    e.test_iff held put,
    e.test_iff held asked,
    lookup-insert put asked new rest,
  )

  pub lookup-remove :
      (k j : K) (m : Table K V) → lookup j (remove k m) ≡ (if k == j then none else lookup j m)
  unfolding lookup remove
  lookup-remove k j [] = ground arith
  lookup-remove k j ((i, w) ∷ m) =
      ground (arith, e.test_iff k j, e.test_iff i k, e.test_iff i j, lookup-remove k j m)

  pub lookup-insert_self : (k : K) (v : V) (m : Table K V) → lookup k (insert k v m) ≡ some v
  lookup-insert_self k v m = rw (lookup-insert, eq_self k)

  pub lookup-insert_ne :
      (k j : K) (v : V) (m : Table K V) → (k == j) ≡ false → lookup j (insert k v m) ≡ lookup j m
  lookup-insert_ne k j v m h = rw (lookup-insert, h)

  pub lookup-remove_self : (k : K) (m : Table K V) → lookup k (remove k m) ≡ none
  lookup-remove_self k m = rw (lookup-remove, eq_self k)

  pub length-insert : (k : K) (v : V) (m : Table K V) → length (insert k v m) ≤ length m + 1
  unfolding insert
  length-insert k v [] = omega arith
  length-insert k v ((j, w) ∷ m) = ground (arith, length-insert k v m)

  pub length-remove_le : (k : K) (m : Table K V) → length (remove k m) ≤ length m
  unfolding remove
  length-remove_le k [] = omega arith
  length-remove_le k ((j, w) ∷ m) = ground (arith, length-remove_le k m)
