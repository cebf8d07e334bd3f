-- ===== src/Labels/Growth.antt =====
-- Which selectors still match when labels are added.
use everoute.Common.{◌≡◌, refl, String, true, false, some, List, [], ◌∷◌, string_eq, arith, All}
use everoute.Common.Dict.{Dict}
use everoute.Common.Set.{has, is_superset, insert_all}
use everoute.Api.{op_exists, Requirement, Selector}
use everoute.Labels.{
  LabelSet, is_nil, values_of, labels_match, extend_labels_match, requirement_matches,
  requirements_match, matches_selector,
}

-- every label of the first set is one of the second
abbrev pub Within : LabelSet → LabelSet → Type 0
Within s t =
    (key value : String) → has value (values_of s key) ≡ true → has value (values_of t key) ≡ true

is_superset-grows :
    (xs ys wanted : List String)
    → ((v : String) → has v xs ≡ true → has v ys ≡ true)
    → is_superset xs wanted ≡ true
    → is_superset ys wanted ≡ true
unfolding is_superset
is_superset-grows xs ys [] h k = refl
is_superset-grows xs ys (w ∷ wanted) h k = ground (arith, k, h w, is_superset-grows xs ys wanted h)

labels_match-grows :
    (s t : LabelSet) (wanted : Dict String String)
    → Within s t
    → labels_match s wanted ≡ true
    → labels_match t wanted ≡ true
unfolding labels_match
labels_match-grows s t [] h k = refl
labels_match-grows s t ((key, value) ∷ rest) h k = ground (
  arith,
  k,
  is_superset-grows (values_of s key) (values_of t key) (value ∷ []) (h key),
  labels_match-grows s t rest h,
)

extend_labels_match-grows :
    (s t : LabelSet) (wanted : Dict String (List String))
    → Within s t
    → extend_labels_match s wanted ≡ true
    → extend_labels_match t wanted ≡ true
unfolding extend_labels_match
extend_labels_match-grows s t [] h k = refl
extend_labels_match-grows s t ((key, values) ∷ rest) h k = ground (
  arith,
  k,
  is_superset-grows (values_of s key) (values_of t key) (insert_all [] values) (h key),
  extend_labels_match-grows s t rest h,
)

has-not_nil : (xs : List String) → is_nil xs ≡ false → (v : String) × (has v xs ≡ true)
unfolding has
has-not_nil [] h = absurd (ground arith)
has-not_nil (x ∷ xs) h = (x, ground (arith, string_eq.beq_iff x x))

not_nil-has : (xs : List String) (v : String) → has v xs ≡ true → is_nil xs ≡ false
unfolding has
not_nil-has [] v h = absurd (ground arith)
not_nil-has (x ∷ xs) v h = refl

not_nil-grows :
    (s t : LabelSet) (key : String)
    → Within s t
    → is_nil (values_of s key) ≡ false
    → is_nil (values_of t key) ≡ false
not_nil-grows s t key h k =
    let (v, member) = has-not_nil (values_of s key) k in
    not_nil-has (values_of t key) v (h key v member)

-- requirements that only ask for a key
abbrev pub AsksKey : Requirement → Type 0
AsksKey r = r.operator ≡ op_exists

requirements_match-grows :
    (s t : LabelSet) (rs : List Requirement)
    → Within s t
    → All AsksKey rs
    → requirements_match s rs ≡ true
    → requirements_match t rs ≡ true
unfolding requirements_match requirement_matches
requirements_match-grows s t [] h a k = refl
requirements_match-grows s t (r ∷ rs) h a k =
    let asked = rw a.0 at k in
    let rest : requirements_match t rs ≡ true =
      requirements_match-grows s t rs h a.1 (ground (arith, asked)) in
    rw (a.0, not_nil-grows s t r.key h (ground (arith, asked))) rest

-- A selector whose expressions only ask for keys matches every set that contains the labels of a set
-- that it matches.
pub matches_selector-Within :
    (sel : Selector) (s t : LabelSet)
    → All AsksKey sel.match_expressions
    → Within s t
    → matches_selector (some sel) s ≡ true
    → matches_selector (some sel) t ≡ true
unfolding matches_selector
matches_selector-Within sel s t a h k = ground (
  arith,
  k,
  labels_match-grows s t sel.match_labels h,
  extend_labels_match-grows s t sel.extend_match_labels h,
  requirements_match-grows s t sel.match_expressions h a,
)
