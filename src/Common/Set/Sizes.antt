-- ===== src/Common/Set/Sizes.antt =====
-- Sets without repetition: a set that lies in another one is not larger, and is the same set if it
-- is not smaller.
use mathlib.Core.Bool.{true, false}
use mathlib.Core.List.{List, [], ◌∷◌}
use mathlib.Core.Path.{◌≡◌, refl}
use mathlib.Core.Logic.{inl, inr}
use native.Mathlib.Omega.{arith}
use Prim.Native.Nat.{◌+◌, ◌≤◌}
use everoute.Common.Lists.{length}
use everoute.Common.Tests.{Bool-cases}
use everoute.Common.Keys.{Eq}
use everoute.Common.Set.{has, add, insert_all, remove, is_superset, has-remove}

module _ {ℓ} {A : Type ℓ} ⦃e : Eq A⦄ where
  abbrev pub IsUniq : List A → Type 0
  IsUniq [] = Unit
  IsUniq (x ∷ xs) = (has x xs ≡ false) × IsUniq xs

  add-IsUniq : (a : A) (xs : List A) → IsUniq xs → IsUniq (add a xs)
  unfolding add
  add-IsUniq a xs u = elim (Bool-cases (has a xs)) [
    | inl there ↦ rw there u
    | inr fresh ↦ rw fresh (fresh, u)
  ]

  pub insert_all-IsUniq : (xs more : List A) → IsUniq xs → IsUniq (insert_all xs more)
  unfolding insert_all
  insert_all-IsUniq xs [] u = u
  insert_all-IsUniq xs (a ∷ more) u = insert_all-IsUniq (add a xs) more (add-IsUniq a xs u)

  length-remove_le : (a : A) (xs : List A) → length (remove a xs) ≤ length xs
  unfolding remove
  length-remove_le a [] = ground arith
  length-remove_le a (x ∷ xs) = ground (arith, length-remove_le a xs)

  length-remove : (a : A) (xs : List A) → has a xs ≡ true → length (remove a xs) + 1 ≤ length xs
  unfolding remove has
  length-remove a [] h = absurd (ground arith)
  length-remove a (x ∷ xs) h = ground (arith, h, length-remove a xs, length-remove_le a xs)

  is_superset-remove :
      (a : A) (xs ys : List A)
      → has a ys ≡ false
      → is_superset xs ys ≡ true
      → is_superset (remove a xs) ys ≡ true
  unfolding is_superset has
  is_superset-remove a xs [] h s = refl
  is_superset-remove a xs (y ∷ ys) h s =
      ground
        (arith, h, s, is_superset-remove a xs ys, has-remove a y xs, e.beq_iff a y, e.beq_iff y a)

  pub is_superset→has :
      (a : A) (xs ys : List A) → is_superset xs ys ≡ true → has a ys ≡ true → has a xs ≡ true
  unfolding is_superset has
  is_superset→has a xs [] s h = absurd (ground arith)
  is_superset→has a xs (y ∷ ys) s h = ground (arith, h, s, is_superset→has a xs ys, e.beq_iff y a)

  is_superset-length :
      (xs ys : List A) → IsUniq ys → is_superset xs ys ≡ true → length ys ≤ length xs
  unfolding is_superset
  is_superset-length xs [] u s = ground arith
  is_superset-length xs (y ∷ ys) u s = ground (
    arith,
    is_superset-length (remove y xs) ys u.1,
    is_superset-remove y xs ys u.0,
    length-remove y xs,
    s,
  )

  pub is_superset-same :
      (a : A) (xs ys : List A)
      → IsUniq ys
      → is_superset xs ys ≡ true
      → length xs ≡ length ys
      → has a xs ≡ has a ys
  is_superset-same a xs ys u s same = ground (
    arith,
    s,
    same,
    is_superset→has a xs ys s,
    is_superset-remove a xs ys,
    is_superset-length (remove a xs) ys u,
    length-remove a xs,
  )

  weaken : (a : A) (xs ys : List A) → is_superset xs ys ≡ true → is_superset (a ∷ xs) ys ≡ true
  unfolding is_superset has
  weaken a xs [] s = refl
  weaken a xs (y ∷ ys) s = ground (arith, s, weaken a xs ys)

  pub is_superset_refl : (xs : List A) → is_superset xs xs ≡ true
  unfolding is_superset has
  is_superset_refl [] = refl
  is_superset_refl (x ∷ xs) = ground (arith, weaken x xs xs, is_superset_refl xs, e.beq_iff x x)
