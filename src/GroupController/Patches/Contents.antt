-- ===== src/GroupController/Patches/Contents.antt =====
-- What the maps of members and the loops over them hold at one reference.
use everoute.Common.{
  ◌≡◌, refl, Bool, Option, none, some, List, [], ◌∷◌, ◌++◌, any, fold, fold-keeps, ◌==◌, string_eq,
  arith, Bool-cases, inl, inr, if◌then◌else◌, ◌∙◌,
}
use everoute.Common.Dict.{
  lookup, delete, values, IsDistinct, lookup-insert, lookup-delete, is_some, insert,
  insert-IsDistinct, delete-IsDistinct,
}
use everoute.Api.{EndpointReference, GroupMember, reference_eq, GroupMembersPatch}
use everoute.GroupController.Patches.{Members, set_member, unset_member, patch_members, to_members}

-- the first that is there
abbrev pub or_else : Option GroupMember → Option GroupMember → Option GroupMember
or_else none old = old
or_else (some m) old = some m

abbrev pub named : EndpointReference → GroupMember → Bool
named k m = m.endpoint_reference == k

-- the last member of a list with the reference
abbrev pub last_named : EndpointReference → List GroupMember → Option GroupMember
last_named k [] = none
last_named k (m ∷ ms) = or_else (last_named k ms) (if named k m then some m else none)

-- no reference stands twice
abbrev pub IsUnique : List GroupMember → Type 0
IsUnique [] = Unit
IsUnique (m ∷ ms) = (last_named m.endpoint_reference ms ≡ none) × IsUnique ms

-- every member stands under its own reference
abbrev pub IsKeyed : Members → Type 0
IsKeyed [] = Unit
IsKeyed ((k, m) ∷ rest) = (m.endpoint_reference ≡ k) × IsKeyed rest

pub lookup-set_all :
    (k : EndpointReference) (members : Members) (ms : List GroupMember)
    → lookup k (fold set_member members ms) ≡ or_else (last_named k ms) (lookup k members)
lookup-set_all k members [] = refl
lookup-set_all k members (m ∷ ms) = ground (
  arith,
  lookup-set_all k (set_member members m) ms,
  lookup-insert m.endpoint_reference k m members,
)

pub lookup-unset_all :
    (k : EndpointReference) (members : Members) (ms : List GroupMember)
    → lookup k (fold unset_member members ms)
      ≡ (if any (named k) ms then none else lookup k members)
lookup-unset_all k members [] = refl
lookup-unset_all k members (m ∷ ms) = ground (
  arith,
  lookup-unset_all k (unset_member members m) ms,
  lookup-delete m.endpoint_reference k members,
)

pub last_named-append :
    (k : EndpointReference) (xs ys : List GroupMember)
    → last_named k (xs ++ ys) ≡ or_else (last_named k ys) (last_named k xs)
last_named-append k [] ys = ground arith
last_named-append k (x ∷ xs) ys = ground (arith, last_named-append k xs ys)

-- the entries of a map as a list
pub any-values :
    (k : EndpointReference) (members : Members)
    → IsKeyed members
    → any (named k) (values members) ≡ is_some (lookup k members)
unfolding lookup
any-values k [] keyed = refl
any-values k ((j, m) ∷ rest) keyed = ground (arith, keyed.0, any-values k rest keyed.1)

pub last_named-values :
    (k : EndpointReference) (members : Members)
    → IsKeyed members
    → IsDistinct members
    → last_named k (values members) ≡ lookup k members
unfolding lookup
last_named-values k [] keyed d = refl
last_named-values k ((j, m) ∷ rest) keyed d =
    ground (arith, keyed.0, d.0, last_named-values k rest keyed.1 d.1, reference_eq.beq_iff j k)

pub delete-IsKeyed :
    (k : EndpointReference) (members : Members) → IsKeyed members → IsKeyed (delete k members)
unfolding delete
delete-IsKeyed k [] keyed = tt
delete-IsKeyed k ((j, m) ∷ rest) keyed = elim (Bool-cases (j == k)) [
  | inl same ↦ rw same (delete-IsKeyed k rest keyed.1)
  | inr other ↦ rw other (keyed.0, delete-IsKeyed k rest keyed.1)
]

insert-IsKeyed :
    (m : GroupMember) (members : Members) → IsKeyed members → IsKeyed (set_member members m)
unfolding insert
insert-IsKeyed m [] keyed = (refl, tt)
insert-IsKeyed m ((j, w) ∷ rest) keyed = elim (Bool-cases (j == m.endpoint_reference)) [
  | inl same ↦ rw same (refl, keyed.1)
  | inr other ↦ rw other (keyed.0, insert-IsKeyed m rest keyed.1)
]

-- a map whose entries stand under their references, each once
abbrev pub IsProper : Members → Type 0
IsProper members = IsKeyed members × IsDistinct members

pub set_all-IsProper :
    (members : Members) (ms : List GroupMember)
    → IsProper members
    → IsProper (fold set_member members ms)
set_all-IsProper members ms proper =
    fold-keeps IsProper set_member
      (λ s m p. (insert-IsKeyed m s p.0, insert-IsDistinct m.endpoint_reference m s p.1)) members ms
      proper

pub unset-IsProper :
    (members : Members) (m : GroupMember) → IsProper members → IsProper (unset_member members m)
unset-IsProper members m p = (
  delete-IsKeyed m.endpoint_reference members p.0,
  delete-IsDistinct m.endpoint_reference members p.1,
)

pub unset_all-IsProper :
    (members : Members) (ms : List GroupMember)
    → IsProper members
    → IsProper (fold unset_member members ms)
unset_all-IsProper = fold-keeps IsProper unset_member unset-IsProper

pub patch_members-IsProper :
    (members : Members) (patch : GroupMembersPatch)
    → IsProper members
    → IsProper (patch_members members patch)
unfolding patch_members
patch_members-IsProper members patch p =
    let more = patch.added_group_members ++ patch.updated_group_members in
    unset_all-IsProper (fold set_member members more) patch.removed_group_members
      (set_all-IsProper members more p)

pub to_members-IsProper : (ms : List GroupMember) → IsProper (to_members ms)
to_members-IsProper ms = set_all-IsProper [] ms (tt, tt)

or_else-none : (o : Option GroupMember) → or_else o none ≡ o
or_else-none none = refl
or_else-none (some m) = refl

pub lookup-to_members :
    (k : EndpointReference) (ms : List GroupMember) → lookup k (to_members ms) ≡ last_named k ms
unfolding lookup
lookup-to_members k ms = lookup-set_all k [] ms ∙ or_else-none (last_named k ms)

-- the list of a map's members holds what the map holds
pub lookup-values :
    (k : EndpointReference) (members : Members)
    → IsProper members
    → lookup k (to_members (values members)) ≡ lookup k members
lookup-values k members p =
    lookup-to_members k (values members) ∙ last_named-values k members p.0 p.1
