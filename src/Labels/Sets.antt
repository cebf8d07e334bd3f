-- ===== src/Labels/Sets.antt =====
-- The label set that AsSet makes.
use everoute.Common.{
  ◌≡◌, refl, String, false, ◌&&◌, Option, none, some, List, [], ◌∷◌, length, ltb, string_eq, nat_eq,
  arith, Bool-cases, inl, inr, ok,
}
use everoute.Common.Dict.{Dict, lookup, insert, IsDistinct, lookup-insert, lookup-nil}
use everoute.Common.Set.{insert_all}
use everoute.Labels.{
  LabelSet, is_nil, is_key, max_labels_size, put_labels, put_extend_labels, as_set,
}

-- the values of a key, by its entries in the two maps and in the set at first
abbrev pub or_set : Option (List String) → Option (List String) → Option (List String)
or_set (some values) old = some (insert_all [] values)
or_set none old = old

abbrev pub or_label : Option String → Option (List String) → Option (List String)
or_label (some value) old = some (value ∷ [])
or_label none old = old

lookup-put_labels :
    (labels : Dict String String) (set : LabelSet) (key : String)
    → IsDistinct labels
    → lookup key (put_labels labels set) ≡ or_label (lookup key labels) (lookup key set)
unfolding put_labels lookup
lookup-put_labels [] set key d = refl
lookup-put_labels ((k, value) ∷ rest) set key d = ground (
  arith,
  d.0,
  lookup-put_labels rest (insert k (value ∷ []) set) key d.1,
  lookup-insert k key (value ∷ []) set,
  string_eq.beq_iff k key,
)

put_extend_labels_lem :
    (labels : Dict String (List String)) (set result : LabelSet) (key : String)
    → IsDistinct labels
    → put_extend_labels labels set ≡ ok result
    → (lookup key result ≡ or_set (lookup key labels) (lookup key set))
      × ((is_key key labels && is_key key set) ≡ false)
unfolding put_extend_labels lookup
put_extend_labels_lem [] set result key d h = (ground (arith, h), refl)
put_extend_labels_lem ((k, values) ∷ rest) set result key d h = elim (Bool-cases (is_nil values)) [
  | inl empty ↦ absurd (ground (arith, rw empty at h))
  | inr solid ↦ elim (Bool-cases (is_key k set)) [
    | inl there ↦ absurd (ground (arith, rw (solid, there) at h))
    | inr fresh ↦
        let new = insert_all [] values in
        let (found, apart) =
          put_extend_labels_lem rest (insert k new set) result key d.1 (rw (solid, fresh) at h) in
        (
          ground (arith, d.0, found, lookup-insert k key new set, string_eq.beq_iff k key),
          ground (arith, d.0, apart, fresh, lookup-insert k key new set, string_eq.beq_iff k key),
        )
  ]
]

-- If AsSet returns a set, no key is both a label and an extended label; a label has its one value
-- in the set, an extended label has its values, and no other key is there. Maps hold a key once.
pub as_set_lem :
    (labels : Dict String String) (extend_labels : Dict String (List String)) (set : LabelSet)
    (key : String)
    → IsDistinct labels
    → IsDistinct extend_labels
    → as_set labels extend_labels ≡ ok set
    → (lookup key set ≡ or_set (lookup key extend_labels) (or_label (lookup key labels) none))
      × ((is_key key extend_labels && is_key key labels) ≡ false)
unfolding as_set
as_set_lem labels extend_labels set key dl de h =
    elim (Bool-cases (ltb max_labels_size (length labels))) [
      | inl many ↦ absurd (ground (arith, rw many at h))
      | inr few ↦ elim (Bool-cases (ltb max_labels_size (length extend_labels))) [
        | inl many ↦ absurd (ground (arith, rw (few, many) at h))
        | inr few' ↦
            let base = lookup-put_labels labels [] key dl in
            let (found, apart) =
              put_extend_labels_lem extend_labels (put_labels labels []) set key de
                (rw (few, few') at h) in
            (
              ground (arith, found, base, lookup-nil {V = List String} key),
              ground (arith, apart, base, lookup-nil {V = List String} key),
            )
      ]
    ]
