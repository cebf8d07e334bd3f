-- ===== src/Utils.antt =====
-- Comparisons of lists without their order: EqualIPs of pkg/utils/ip.go and EqualStringSlice of
-- pkg/utils/utils.go. Go orders strings by bytes, which is the order of texts.
pub mod Equality
use Prim.Native.Nat.{Ordering}
use Prim.Native.String.{compare}
use everoute.Common.{
  String, Bool, true, false, ◌&&◌, List, [], ◌∷◌, length, ◌==◌, nat_eq, string_eq, if◌then◌else◌,
}
use everoute.Common.Set.{insert_all, is_superset}

abbrev pub string_leb : String → String → Bool
string_leb a b = elim (compare a b) [ Ordering.gt ↦ false | _ ↦ true ]

-- sort.Strings
unfoldable pub insert_sorted : String → List String → List String
insert_sorted a [] = a ∷ []
insert_sorted a (x ∷ xs) =
    let rest = insert_sorted a xs in if string_leb a x then a ∷ x ∷ xs else x ∷ rest

unfoldable pub sort_strings : List String → List String
unfolding insert_sorted
sort_strings [] = []
sort_strings (x ∷ xs) = insert_sorted x (sort_strings xs)

-- the loop over the indices of the sorted lists
unfoldable pub same_items : List String → List String → Bool
same_items [] [] = true
same_items [] (y ∷ ys) = false
same_items (x ∷ xs) [] = false
same_items (x ∷ xs) (y ∷ ys) = x == y && same_items xs ys

unfoldable pub equal_string_slice : List String → List String → Bool
unfolding sort_strings same_items
equal_string_slice list1 list2 =
    if length list1 == length list2
    then same_items (sort_strings list1) (sort_strings list2)
    else false

-- Equal of sets.String
unfoldable pub set_equal : List String → List String → Bool
set_equal set1 set2 = length set1 == length set2 && is_superset set1 set2

-- an address is a text
unfoldable pub equal_ips : List String → List String → Bool
unfolding set_equal
equal_ips ips1 ips2 =
    length ips1 == length ips2 && set_equal (insert_all [] ips1) (insert_all [] ips2)
