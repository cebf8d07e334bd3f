-- ===== src/Utils/Equality.antt =====
-- Lists that the comparisons find equal have the same elements.
use everoute.Common.{
  ◌≡◌, refl, String, true, ◌||◌, List, [], ◌∷◌, length, ◌==◌, string_eq, nat_eq, arith,
}
use everoute.Common.Set.{has, insert_all, has-insert_all}
use everoute.Common.Set.Sizes.{is_superset-same, is_superset_refl, insert_all-IsUniq}
use everoute.Utils.{
  insert_sorted, sort_strings, same_items, equal_string_slice, set_equal, equal_ips,
}

has-insert_sorted :
    (a x : String) (xs : List String) → has x (insert_sorted a xs) ≡ (a == x || has x xs)
unfolding insert_sorted has
has-insert_sorted a x [] = refl
has-insert_sorted a x (y ∷ ys) = ground (arith, has-insert_sorted a x ys)

pub has-sort_strings : (x : String) (xs : List String) → has x (sort_strings xs) ≡ has x xs
unfolding sort_strings has
has-sort_strings x [] = refl
has-sort_strings x (y ∷ ys) =
    ground (arith, has-insert_sorted y x (sort_strings ys), has-sort_strings x ys)

same_items→has : (x : String) (xs ys : List String) → same_items xs ys ≡ true → has x xs ≡ has x ys
unfolding same_items has
same_items→has x [] [] h = refl
same_items→has x [] (b ∷ ys) h = absurd (ground arith)
same_items→has x (a ∷ xs) [] h = absurd (ground arith)
same_items→has x (a ∷ xs) (b ∷ ys) h =
    ground (arith, h, same_items→has x xs ys, string_eq.beq_iff a b)

same_items_refl : (xs : List String) → same_items xs xs ≡ true
unfolding same_items
same_items_refl [] = refl
same_items_refl (x ∷ xs) = ground (arith, same_items_refl xs, string_eq.beq_iff x x)

-- EqualStringSlice of a list and itself
pub equal_string_slice_refl : (xs : List String) → equal_string_slice xs xs ≡ true
unfolding equal_string_slice
equal_string_slice_refl xs =
    ground (arith, same_items_refl (sort_strings xs), nat_eq.beq_iff (length xs) (length xs))

-- Slices that EqualStringSlice finds equal have the same elements.
pub equal_string_slice→has :
    (x : String) (xs ys : List String) → equal_string_slice xs ys ≡ true → has x xs ≡ has x ys
unfolding equal_string_slice
equal_string_slice→has x xs ys h = ground (
  arith,
  h,
  same_items→has x (sort_strings xs) (sort_strings ys),
  has-sort_strings x xs,
  has-sort_strings x ys,
)

-- EqualIPs of a list and itself
pub equal_ips_refl : (xs : List String) → equal_ips xs xs ≡ true
unfolding equal_ips set_equal
equal_ips_refl xs = ground (
  arith,
  is_superset_refl (insert_all [] xs),
  nat_eq.beq_iff (length xs) (length xs),
  nat_eq.beq_iff (length (insert_all [] xs)) (length (insert_all [] xs)),
)

-- Sets that Equal finds equal have the same elements.
pub set_equal→has :
    (x : String) (xs ys : List String)
    → set_equal (insert_all [] xs) (insert_all [] ys) ≡ true
    → has x xs ≡ has x ys
unfolding set_equal has
set_equal→has x xs ys h = ground (
  arith,
  h,
  is_superset-same x (insert_all [] xs) (insert_all [] ys) (insert_all-IsUniq [] ys tt),
  has-insert_all x [] xs,
  has-insert_all x [] ys,
  nat_eq.beq_iff (length (insert_all [] xs)) (length (insert_all [] ys)),
)

-- Lists of addresses that EqualIPs finds equal have the same addresses.
pub equal_ips→has :
    (x : String) (xs ys : List String) → equal_ips xs ys ≡ true → has x xs ≡ has x ys
unfolding equal_ips
equal_ips→has x xs ys h = ground (arith, h, set_equal→has x xs ys)
