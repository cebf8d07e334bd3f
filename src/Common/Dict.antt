-- ===== src/Common/Dict.antt =====
-- A Go map as an association list. The order of the entries stands for one of the orders in which
-- Go may iterate; a missing key is `none`.
use mathlib.Core.Bool.{Bool, true, false}
use mathlib.Core.List.{List, [], ◌∷◌}
use mathlib.Core.Option.{Option, none, some}
use mathlib.Core.Path.{◌≡◌, refl}
use native.Mathlib.Omega.{arith}
use Prim.Native.Nat.{◌+◌}
use everoute.Common.Lists.{length}
use everoute.Common.Tests.{if◌then◌else◌, Bool-cases}
use mathlib.Core.Logic.{inl, inr}
use everoute.Common.Keys.{Eq, ◌==◌}

abbrev pub Dict {ℓ κ} : Type ℓ → Type κ → Type (ℓ ⊔ κ)
Dict K V = List (K × V)

abbrev pub keys {ℓ κ} : {K : Type ℓ} {V : Type κ} → Dict K V → List K
keys [] = []
keys ((k, v) ∷ m) = k ∷ keys m

abbrev pub values {ℓ κ} : {K : Type ℓ} {V : Type κ} → Dict K V → List V
values [] = []
values ((k, v) ∷ m) = v ∷ values m

abbrev pub is_some {ℓ} : {A : Type ℓ} → Option A → Bool
is_some none = false
is_some (some a) = true

module _ {ℓ κ} {K : Type ℓ} {V : Type κ} ⦃e : Eq K⦄ where
  unfoldable pub lookup : K → Dict K V → Option V
  lookup k [] = none
  lookup k ((j, v) ∷ m) = if j == k then some v else lookup k m

  -- delete(m, k)
  unfoldable pub delete : K → Dict K V → Dict K V
  delete k [] = []
  delete k ((j, w) ∷ m) = let rest = delete k m in if j == k then rest else (j, w) ∷ rest

  -- m[k] = v
  unfoldable pub insert : K → V → Dict K V → Dict K V
  insert k v [] = (k, v) ∷ []
  insert k v ((j, w) ∷ m) = if j == k then (k, v) ∷ m else (j, w) ∷ insert k v m

  -- for k := range m { if p(k) { delete(m, k) } }
  unfoldable pub delete_if : (K → Bool) → Dict K V → Dict K V
  delete_if p [] = []
  delete_if p ((j, w) ∷ m) = let rest = delete_if p m in if p j then rest else (j, w) ∷ rest

  pub lookup-nil : (k : K) → lookup k [] ≡ none
  unfolding lookup
  lookup-nil k = refl

  pub lookup-insert :
      (k j : K) (v : V) (m : Dict K V)
      → lookup j (insert k v m) ≡ (if k == j then some v else lookup j m)
  unfolding lookup insert
  lookup-insert k j v [] = refl
  lookup-insert k j v (entry ∷ m) =
      ground (arith, lookup-insert k j v m, e.beq_iff entry.0 k, e.beq_iff entry.0 j, e.beq_iff k j)

  pub lookup-delete :
      (k j : K) (m : Dict K V) → lookup j (delete k m) ≡ (if k == j then none else lookup j m)
  unfolding lookup delete
  lookup-delete k j [] = ground arith
  lookup-delete k j ((i, w) ∷ m) =
      ground (arith, e.beq_iff k j, e.beq_iff i k, e.beq_iff i j, lookup-delete k j m)

  pub lookup-delete_if :
      (p : K → Bool) (j : K) (m : Dict K V)
      → lookup j (delete_if p m) ≡ (if p j then none else lookup j m)
  unfolding lookup delete_if
  lookup-delete_if p j [] = ground arith
  lookup-delete_if p j ((i, w) ∷ m) = ground (arith, e.beq_iff i j, lookup-delete_if p j m)

  -- no key stands twice, as in every map
  abbrev pub IsDistinct : Dict K V → Type κ
  IsDistinct [] = Unit
  IsDistinct ((k, v) ∷ m) = (lookup k m ≡ none) × IsDistinct m

  pub insert-IsDistinct : (k : K) (v : V) (m : Dict K V) → IsDistinct m → IsDistinct (insert k v m)
  unfolding lookup insert
  insert-IsDistinct k v [] d = (refl, tt)
  insert-IsDistinct k v ((j, w) ∷ m) d = elim (Bool-cases (j == k)) [
    | inl same ↦ rw same (ground (arith, d.0, same, e.beq_iff j k), d.1)
    | inr other ↦ rw other (
      ground (arith, lookup-insert k j v m, d.0, other, e.beq_iff j k, e.beq_iff k j),
      insert-IsDistinct k v m d.1,
    )
  ]

  pub delete_if-IsDistinct :
      (p : K → Bool) (m : Dict K V) → IsDistinct m → IsDistinct (delete_if p m)
  unfolding delete_if
  delete_if-IsDistinct p [] d = tt
  delete_if-IsDistinct p ((j, w) ∷ m) d = elim (Bool-cases (p j)) [
    | inl gone ↦ rw gone (delete_if-IsDistinct p m d.1)
    | inr kept ↦
        rw kept (ground (arith, lookup-delete_if p j m, d.0, kept), delete_if-IsDistinct p m d.1)
  ]

  pub delete-IsDistinct : (k : K) (m : Dict K V) → IsDistinct m → IsDistinct (delete k m)
  unfolding delete
  delete-IsDistinct k [] d = tt
  delete-IsDistinct k ((j, w) ∷ m) d = elim (Bool-cases (j == k)) [
    | inl same ↦ rw same (delete-IsDistinct k m d.1)
    | inr other ↦ rw other (
      ground (arith, lookup-delete k j m, d.0, other, e.beq_iff j k, e.beq_iff k j),
      delete-IsDistinct k m d.1,
    )
  ]

  delete_absent : (k : K) (m : Dict K V) → lookup k m ≡ none → delete k m ≡ m
  unfolding lookup delete
  delete_absent k [] h = refl
  delete_absent k ((j, w) ∷ m) h = ground (arith, delete_absent k m)

  pub length-delete :
      (k : K) (m : Dict K V)
      → IsDistinct m
      → (v : V) → lookup k m ≡ some v
      → length (delete k m) + 1 ≡ length m
  unfolding lookup delete
  length-delete k [] d v h = absurd (ground arith)
  length-delete k ((j, w) ∷ m) d v h =
      ground (arith, length-delete k m d.1 v, delete_absent k m, e.beq_iff j k)

  pub ruleset dict_laws = (lookup-insert, lookup-delete, lookup-delete_if)
