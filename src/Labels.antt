-- ===== src/Labels.antt =====
-- Label sets and selectors: pkg/labels/labels.go and pkg/labels/selector.go. A set of strings is a
-- list of its elements; a missing key of a label set reads as the empty set.
pub mod Growth
pub mod Sets
use everoute.Utils.{set_equal}
use everoute.Common.{
  ℕ, String, Bool, true, false, ◌&&◌, ◌||◌, not, Option, none, some, List, [], ◌∷◌, length, ltb,
  ◌==◌, nat_eq, string_eq, if◌then◌else◌, Result, ok, err,
}
use everoute.Common.Dict.{Dict, lookup, insert, is_some}
use everoute.Common.Set.{insert_all, is_superset, has_any}
use everoute.Api.{
  op_in, op_not_in, op_exists, op_does_not_exist, other, Requirement, Selector, LabelSelector,
}

abbrev pub LabelSet : Type 0
LabelSet = Dict String (List String)

-- math.MaxInt16
abbrev pub max_labels_size : ℕ
max_labels_size = 32767

pub data LabelError : Type 0 where
  too_many too_many_extend : ℕ → LabelError
  empty_values existing_key : String → LabelError

abbrev pub is_nil {ℓ} : {A : Type ℓ} → List A → Bool
is_nil [] = true
is_nil (x ∷ xs) = false

abbrev pub is_key {ℓ} : {V : Type ℓ} → String → Dict String V → Bool
is_key key m = is_some (lookup key m)

-- the loop over `labels`
unfoldable pub put_labels : Dict String String → LabelSet → LabelSet
put_labels [] set = set
put_labels ((key, value) ∷ rest) set = put_labels rest (insert key (value ∷ []) set)

-- the loop over `extendLabels`
unfoldable pub put_extend_labels : Dict String (List String) → LabelSet → Result LabelError LabelSet
put_extend_labels [] set = ok set
put_extend_labels ((key, values) ∷ rest) set =
    let more = put_extend_labels rest (insert key (insert_all [] values) set) in
    if is_nil values
    then err (empty_values key)
    else if is_key key set
    then err (existing_key key)
    else more

unfoldable pub as_set : Dict String String → Dict String (List String) → Result LabelError LabelSet
unfolding put_labels put_extend_labels
as_set labels extend_labels =
    if ltb max_labels_size (length labels)
    then err (too_many (length labels))
    else if ltb max_labels_size (length extend_labels)
    then err (too_many_extend (length extend_labels))
    else put_extend_labels extend_labels (put_labels labels [])

unfoldable pub from_label_selector : Option LabelSelector → Option Selector
from_label_selector none = none
from_label_selector (some s) = some (record {
  match_labels = s.match_labels;
  match_expressions = s.match_expressions;
  extend_match_labels = [];
  match_nothing = false;
})

-- labelSet[key]
abbrev pub values_of : LabelSet → String → List String
values_of set key = elim (lookup key set) [ none ↦ [] | some values ↦ values ]

unfoldable pub labels_match : LabelSet → Dict String String → Bool
labels_match set [] = true
labels_match set ((key, value) ∷ rest) =
    is_superset (values_of set key) (value ∷ []) && labels_match set rest

unfoldable pub extend_labels_match : LabelSet → Dict String (List String) → Bool
extend_labels_match set [] = true
extend_labels_match set ((key, values) ∷ rest) =
    is_superset (values_of set key) (insert_all [] values) && extend_labels_match set rest

-- the switch over the operator; an unknown one matches
unfoldable pub requirement_matches : LabelSet → Requirement → Bool
requirement_matches set r = elim r.operator [
  | op_in ↦
      not (is_nil (values_of set r.key))
      && is_superset (insert_all [] r.values) (values_of set r.key)
  | op_not_in ↦ not (has_any (values_of set r.key) r.values)
  | op_exists ↦ not (is_nil (values_of set r.key))
  | op_does_not_exist ↦ not (is_key r.key set)
  | other o ↦ true
]

unfoldable pub requirements_match : LabelSet → List Requirement → Bool
unfolding requirement_matches
requirements_match set [] = true
requirements_match set (r ∷ rs) = requirement_matches set r && requirements_match set rs

unfoldable pub matches_selector : Option Selector → LabelSet → Bool
unfolding labels_match extend_labels_match requirements_match
matches_selector none set = false
matches_selector (some s) set =
    not s.match_nothing
    && labels_match set s.match_labels
    && extend_labels_match set s.extend_match_labels
    && requirements_match set s.match_expressions

-- the body of the loop of Equals
abbrev pub same_values : List String → Option (List String) → Bool
same_values values1 none = false
same_values values1 (some values2) =
    length values1 == length values2 && set_equal (insert_all [] values1) (insert_all [] values2)

unfoldable pub all_equal : Dict String (List String) → Dict String (List String) → Bool
all_equal [] extend_labels2 = true
all_equal ((key, values) ∷ rest) extend_labels2 =
    same_values values (lookup key extend_labels2) && all_equal rest extend_labels2

unfoldable pub equals : Dict String (List String) → Dict String (List String) → Bool
unfolding all_equal
equals extend_labels1 extend_labels2 =
    length extend_labels1 == length extend_labels2 && all_equal extend_labels1 extend_labels2
