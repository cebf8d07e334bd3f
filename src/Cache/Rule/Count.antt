-- ===== src/Cache/Rule/Count.antt =====
-- applyCountMap, address by address: the result does not depend on the order in which Go iterates
-- over the maps.
use everoute.Common.{
  ◌≡◌, ◌≢◌, refl, sym, ap, ◌∙◌, String, Option, none, some, [], ◌∷◌, ◌==◌, string_eq, if◌then◌else◌,
  arith, Bool-cases, Option-cases, inl, inr,
}
use everoute.Common.Dict.{
  lookup, insert, delete, IsDistinct, lookup-insert, lookup-delete, lookup-nil,
}
use everoute.Cache.{IpBlockItem, Blocks, new_ip_block_item}
use everoute.Cache.Rule.{
  ◌>>=◌, reduce, extend, is_unused, del_block, add_block, del_blocks, add_blocks, apply_count_map,
}

-- an entry of a map: absent, nil, or an item
abbrev pub Entry : Type 0
Entry = Option (Option IpBlockItem)

-- an entry after the entry of `deled` for its address
abbrev pub del_at : Entry → Entry → Entry
del_at none del = none
del_at (some none) del = some none
del_at (some (some item)) none = some (some item)
del_at (some (some item)) (some del) =
    if is_unused (reduce item del) then none else some (some (reduce item del))

-- an entry after the entry of `added` for its address
abbrev pub add_at : Entry → Entry → Entry
add_at old none = old
add_at none (some add) = some (some (extend new_ip_block_item add))
add_at (some none) (some add) = some none
add_at (some (some item)) (some add) = some (some (extend item add))

-- no address has a nil item
abbrev pub NoNil : Blocks → Type 0
NoNil blocks = (ip : String) → lookup ip blocks ≢ some none

-- the effect of a loop body for one address on all addresses
abbrev Effect : Option Blocks → Blocks → String → Entry → Type 0
Effect result count j new =
    (c : Blocks) × (result ≡ some c)
    × NoNil c
    × ((ip : String) → lookup ip c ≡ (if j == ip then new else lookup ip count))

NoNil-of :
    (count c : Blocks) (j : String) (new : Entry)
    → NoNil count
    → new ≢ some none
    → ((ip : String) → lookup ip c ≡ (if j == ip then new else lookup ip count))
    → NoNil c
NoNil-of count c j new clean solid effect ip bad = elim (Bool-cases (j == ip)) [
  | inl here ↦ solid (ground (arith, effect ip))
  | inr other ↦ clean ip (ground (arith, effect ip))
]

del_block-Effect :
    (count : Blocks) (j : String) (del : Option IpBlockItem)
    → NoNil count
    → Effect (del_block count j del) count j (del_at (lookup j count) (some del))
unfolding del_block
del_block-Effect count j del clean = elim (Option-cases (lookup j count)) [
  | inl missing ↦
      let effect = λ (ip : String). absent count j ip missing in
      (count, rw (missing, del_block), clean, rw missing effect)
  | inr (none, stored) ↦ absurd (clean j stored)
  | inr (some item, stored) ↦ elim (Bool-cases (is_unused (reduce item del))) [
    | inl unused ↦
        let effect = λ (ip : String). lookup-delete j ip count in
        (
          delete j count,
          rw (stored, del_block, unused),
          NoNil-of count (delete j count) j none clean (ground arith) effect,
          rw (stored, unused) effect,
        )
    | inr used ↦
        let new : Entry = some (some (reduce item del)) in
        let c = insert j (some (reduce item del)) count in
        let effect = λ (ip : String). lookup-insert j ip (some (reduce item del)) count in
        (
          c,
          rw (stored, del_block, used),
          NoNil-of count c j new clean (ground arith) effect,
          rw (stored, used) effect,
        )
  ]
]
  where
    absent :
        (count : Blocks) (j ip : String)
        → lookup j count ≡ none
        → lookup ip count ≡ (if j == ip then none else lookup ip count)
    absent count j ip missing = elim (Bool-cases (j == ip)) [
      | inl here ↦ let e = (string_eq.beq_iff j ip).0 here in rw (← e, missing) (ground arith)
      | inr other ↦ rw other
    ]

add_block-Effect :
    (count : Blocks) (j : String) (add : Option IpBlockItem)
    → NoNil count
    → Effect (add_block count j add) count j (add_at (lookup j count) (some add))
unfolding add_block
add_block-Effect count j add clean = elim (Option-cases (lookup j count)) [
  | inl missing ↦
      let item = some (extend new_ip_block_item add) in
      let c = insert j item count in
      let effect = λ (ip : String). lookup-insert j ip item count in
      (
        c,
        rw (missing, add_block),
        NoNil-of count c j (some item) clean (ground arith) effect,
        rw missing effect,
      )
  | inr (none, stored) ↦ absurd (clean j stored)
  | inr (some old, stored) ↦
      let item = some (extend old add) in
      let c = insert j item count in
      let effect = λ (ip : String). lookup-insert j ip item count in
      (
        c,
        rw (stored, add_block),
        NoNil-of count c j (some item) clean (ground arith) effect,
        rw stored effect,
      )
]

-- a loop over a map, whose body has the effect `at` on the entry of each address
abbrev Loop : Option Blocks → Blocks → Blocks → (Entry → Entry → Entry) → Type 0
Loop result count changes at =
    (c : Blocks) × (result ≡ some c)
    × NoNil c
    × ((ip : String) → lookup ip c ≡ at (lookup ip count) (lookup ip changes))

-- one more change in front of a loop
then_loop :
    (at : Entry → Entry → Entry) (count c c' rest : Blocks) (j ip : String)
    (change : Option IpBlockItem)
    → ((old : Entry) → at old none ≡ old)
    → lookup j rest ≡ none
    → lookup ip c ≡ (if j == ip then at (lookup j count) (some change) else lookup ip count)
    → lookup ip c' ≡ at (lookup ip c) (lookup ip rest)
    → lookup ip c' ≡ at (lookup ip count) (lookup ip ((j, change) ∷ rest))
unfolding lookup
then_loop at count c c' rest j ip change keep fresh first more = elim (Bool-cases (j == ip)) [
  | inl here ↦
      let e = (string_eq.beq_iff j ip).0 here in
      let absent : lookup ip rest ≡ none = rw e at fresh in
      let now : lookup ip c ≡ at (lookup ip count) (some change) =
        (rw here at first) ∙ ap (λ k. at (lookup k count) (some change)) e in
      rw here (more ∙ ap (at (lookup ip c)) absent ∙ keep (lookup ip c) ∙ now)
  | inr other ↦
      let now : lookup ip c ≡ lookup ip count = rw other at first in
      rw other (more ∙ ap (λ old. at old (lookup ip rest)) now)
]

del_at-none : (old : Entry) → del_at old none ≡ old
del_at-none none = refl
del_at-none (some none) = refl
del_at-none (some (some item)) = refl

add_at-none : (old : Entry) → add_at old none ≡ old
add_at-none none = refl
add_at-none (some none) = refl
add_at-none (some (some item)) = refl

del_blocks-Loop :
    (count deled : Blocks)
    → NoNil count
    → IsDistinct deled
    → Loop (del_blocks count deled) count deled del_at
unfolding del_blocks
del_blocks-Loop count [] clean d =
    (count, refl, clean, λ ip. rw lookup-nil (sym (del_at-none (lookup ip count))))
del_blocks-Loop count ((j, del) ∷ rest) clean d =
    let (c, first, clean', effect) = del_block-Effect count j del clean in
    let (c', more, clean'', effect') = del_blocks-Loop c rest clean' d.1 in
    (
      c',
      ap (λ r. r >>= λ k. del_blocks k rest) first ∙ more,
      clean'',
      λ ip. then_loop del_at count c c' rest j ip del del_at-none d.0 (effect ip) (effect' ip),
    )

add_blocks-Loop :
    (count added : Blocks)
    → NoNil count
    → IsDistinct added
    → Loop (add_blocks count added) count added add_at
unfolding add_blocks
add_blocks-Loop count [] clean d =
    (count, refl, clean, λ ip. rw lookup-nil (sym (add_at-none (lookup ip count))))
add_blocks-Loop count ((j, add) ∷ rest) clean d =
    let (c, first, clean', effect) = add_block-Effect count j add clean in
    let (c', more, clean'', effect') = add_blocks-Loop c rest clean' d.1 in
    (
      c',
      ap (λ r. r >>= λ k. add_blocks k rest) first ∙ more,
      clean'',
      λ ip. then_loop add_at count c c' rest j ip add add_at-none d.0 (effect ip) (effect' ip),
    )

-- On a map without nil items applyCountMap never writes through a nil item; the result has none
-- either, and each address has there what its own entries of the three maps give: first the
-- deletion, which removes an item that has no agent and no count left, then the addition. Maps
-- hold a key once.
pub apply_count_map-at :
    (count added deled : Blocks)
    → NoNil count
    → IsDistinct added
    → IsDistinct deled
    → (result : Blocks) × (apply_count_map count added deled ≡ some result)
      × NoNil result
      × ((ip : String)
          → lookup ip result
            ≡ add_at (del_at (lookup ip count) (lookup ip deled)) (lookup ip added))
unfolding apply_count_map
apply_count_map-at count added deled clean da dd =
    let (c, first, clean', deletes) = del_blocks-Loop count deled clean dd in
    let (result, second, clean'', adds) = add_blocks-Loop c added clean' da in
    (
      result,
      ap (λ r. r >>= λ k. add_blocks k added) first ∙ second,
      clean'',
      λ ip. adds ip ∙ ap (λ old. add_at old (lookup ip added)) (deletes ip),
    )
