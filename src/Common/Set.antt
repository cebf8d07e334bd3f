-- ===== src/Common/Set.antt =====
-- sets.String of k8s.io/apimachinery as the list of its elements, without repetition when it is
-- built by these operations.
pub mod Sizes
use mathlib.Core.Bool.{Bool, true, false, ◌||◌, ◌&&◌, not}
use mathlib.Core.List.{List, [], ◌∷◌}
use mathlib.Core.Path.{◌≡◌, refl}
use native.Mathlib.Omega.{arith}
use everoute.Common.Tests.{if◌then◌else◌}
use everoute.Common.Keys.{Eq, ◌==◌}

module _ {ℓ} {A : Type ℓ} ⦃e : Eq A⦄ where
  unfoldable pub has : A → List A → Bool
  has a [] = false
  has a (x ∷ xs) = x == a || has a xs

  unfoldable pub add : A → List A → List A
  unfolding has
  add a xs = if has a xs then xs else a ∷ xs

  unfoldable pub insert_all : List A → List A → List A
  insert_all xs [] = xs
  insert_all xs (a ∷ more) = insert_all (add a xs) more

  unfoldable pub remove : A → List A → List A
  remove a [] = []
  remove a (x ∷ xs) = let rest = remove a xs in if x == a then rest else x ∷ rest

  unfoldable pub delete_all : List A → List A → List A
  delete_all xs [] = xs
  delete_all xs (a ∷ more) = delete_all (remove a xs) more

  -- every element of the second set is in the first
  unfoldable pub is_superset : List A → List A → Bool
  is_superset s [] = true
  is_superset s (x ∷ xs) = has x s && is_superset s xs

  -- one of the given values is in the set
  unfoldable pub has_any : List A → List A → Bool
  has_any s [] = false
  has_any s (x ∷ xs) = has x s || has_any s xs

  pub has-add : (a b : A) (xs : List A) → has b (add a xs) ≡ (a == b || has b xs)
  unfolding add has
  has-add a b xs = ground (arith, e.beq_iff a b)

  pub has-insert_all :
      (b : A) (xs more : List A) → has b (insert_all xs more) ≡ (has b more || has b xs)
  unfolding insert_all has
  has-insert_all b xs [] = refl
  has-insert_all b xs (a ∷ more) = ground (arith, has-insert_all b (add a xs) more, has-add a b xs)

  pub has-remove : (a b : A) (xs : List A) → has b (remove a xs) ≡ (not (a == b) && has b xs)
  unfolding remove has
  has-remove a b [] = ground arith
  has-remove a b (x ∷ xs) =
      ground (arith, has-remove a b xs, e.beq_iff x a, e.beq_iff x b, e.beq_iff a b)

  pub has-delete_all :
      (b : A) (xs more : List A) → has b (delete_all xs more) ≡ (not (has b more) && has b xs)
  unfolding delete_all has
  has-delete_all b xs [] = refl
  has-delete_all b xs (a ∷ more) =
      ground (arith, has-delete_all b (remove a xs) more, has-remove a b xs)
