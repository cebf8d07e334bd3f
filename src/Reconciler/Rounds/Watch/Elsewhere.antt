-- ===== src/Reconciler/Rounds/Watch/Elsewhere.antt =====
-- The patches that NextPatch returns after a call on the group cache, for the other groups.
use everoute.Common.{
  ℕ, ◌≡◌, refl, sym, ap, ◌∙◌, String, Bool, true, false, Option, none, some, [], ◌∷◌, ◌==◌,
  if◌then◌else◌, nat_eq, string_eq, ok, arith, Option-cases, Bool-cases, inl, inr, length,
}
use everoute.Cache.{revision_lt}
use everoute.Common.Dict.{insert, delete, delete_if, lookup, is_some, lookup-insert, lookup-delete}
use everoute.Api.{GroupMembers, GroupMembersPatch}
use everoute.Cache.Group.{
  GroupCache, GroupPatch, patches_of, next_patch, add_patch, apply_patch, after_patch, patch_len,
  add_group_membership, del_group_membership, Patches, is_old, GroupMembership, membership_of,
  patched, to_group_patch,
}
use everoute.Cache.Group.Current.{apply_patch-cases}
use everoute.Cache.Group.Progress.{next_patch-cases}

pub next_patch-name :
    (c : GroupCache) (name : String) (p : GroupPatch)
    → next_patch c name ≡ some p
    → p.group_name ≡ name
unfolding to_group_patch
next_patch-name c name p h =
    let (m, source, known, stored, shape) = next_patch-cases c name p h in
    ap (λ q. q.group_name) shape

-- whether NextPatch returns a patch
abbrev pub has_next : GroupCache → String → Bool
has_next c g = is_some (next_patch c g)

-- Two caches have the same of a group.
abbrev SameAt : GroupCache → GroupCache → String → Type 0
SameAt c c' g = (lookup g c.members ≡ lookup g c'.members) × (patches_of c g ≡ patches_of c' g)

abbrev next_of : Option GroupMembership → Patches → Bool
next_of none patches = false
next_of (some m) patches = is_some (lookup m.revision patches)

has_next_lem :
    (c : GroupCache) (g : String) → has_next c g ≡ next_of (lookup g c.members) (patches_of c g)
unfolding next_patch
has_next_lem c g = elim (Option-cases (lookup g c.members)) [
  | inl missing ↦ ground (arith, missing)
  | inr (m, known) ↦ elim (Option-cases (lookup m.revision (patches_of c g))) [
    | inl absent ↦ ground (arith, known, absent)
    | inr (source, stored) ↦ ground (arith, known, stored)
  ]
]

has_next-SameAt : (c c' : GroupCache) (g : String) → SameAt c c' g → has_next c g ≡ has_next c' g
has_next-SameAt c c' g (members, patches) =
    has_next_lem c g ∙ rw (members, patches) refl ∙ sym (has_next_lem c' g)

-- Only one group changes.
abbrev pub Elsewhere : GroupCache → GroupCache → String → Type 0
Elsewhere c c' name = (g : String) → name == g ≡ false → has_next c' g ≡ has_next c g

insert-Elsewhere :
    (c : GroupCache) (name : String) (ps : Patches) (m : GroupMembership)
    → Elsewhere c
        (record { patches = insert name ps c.patches; members = insert name m c.members })
        name
unfolding patches_of
insert-Elsewhere c name ps m g other =
    has_next-SameAt
      (record { patches = insert name ps c.patches; members = insert name m c.members }) c g
      (
        ground (arith, lookup-insert name g m c.members, other),
        ground (arith, lookup-insert name g ps c.patches, other),
      )

pub add_patch-Elsewhere :
    (c : GroupCache) (p : GroupMembersPatch)
    → Elsewhere c (add_patch c p) p.applied_to_group_members.name
unfolding add_patch patches_of
add_patch-Elsewhere c p g other =
    let name = p.applied_to_group_members.name in
    let revision = p.applied_to_group_members.revision in
    let ps = insert revision p (patches_of c name) in
    elim (Bool-cases (is_old revision (lookup name c.members))) [
      | inl old ↦ rw old refl
      | inr recent ↦ rw recent (
          has_next-SameAt (record c { patches = insert name ps c.patches }) c g
            (refl, ground (arith, lookup-insert name g ps c.patches, other)))
    ]

pub add_group_membership-Elsewhere :
    (c : GroupCache) (m : GroupMembers) → Elsewhere c (add_group_membership c m) m.name
unfolding add_group_membership patches_of
add_group_membership-Elsewhere c m g other =
    let kept = delete_if (λ r. revision_lt r m.revision) (patches_of c m.name) in
    elim (Option-cases (lookup m.name c.members)) [
      | inr (known, is) ↦
          let same : add_group_membership c m ≡ c = ground (arith, is) in rw same refl
      | inl unknown ↦
          let shape : add_group_membership c m ≡ record {
            patches = insert m.name kept c.patches;
            members = insert m.name (membership_of m) c.members;
          } =
            ground (arith, unknown) in
          rw shape (insert-Elsewhere c m.name kept (membership_of m) g other)
    ]

-- A deleted group has no patch to apply.
pub del_group_membership-has_next :
    (c : GroupCache) (name g : String)
    → has_next (del_group_membership c name) g ≡ (if name == g then false else has_next c g)
unfolding del_group_membership patches_of
del_group_membership-has_next c name g = ground (
  arith,
  has_next_lem c g,
  has_next_lem (del_group_membership c name) g,
  lookup-delete name g c.members,
  lookup-delete name g c.patches,
)

pub apply_patch-Elsewhere :
    (c c' : GroupCache) (p : GroupPatch) → apply_patch c p ≡ ok c' → Elsewhere c c' p.group_name
unfolding after_patch
apply_patch-Elsewhere c c' p applied g other = elim (apply_patch-cases c c' p applied) [
  | inl same ↦ rw same refl
  | inr (m, source, known, revision, stored, done) ↦ rw done (
      insert-Elsewhere c p.group_name (delete m.revision (patches_of c p.group_name))
        (patched m m.revision source) g other)
]

lookup-length : (n : ℕ) (ps : Patches) → is_some (lookup n ps) ≡ true → (length ps == 0) ≡ false
unfolding lookup
lookup-length n [] h = absurd (ground (arith, h))
lookup-length n (p ∷ ps) h = ground arith

-- a group with a patch to apply has patches
pub has_next-patch_len :
    (c : GroupCache) (g : String) → has_next c g ≡ true → (patch_len c g == 0) ≡ false
unfolding patch_len
has_next-patch_len c g h = elim (Option-cases (lookup g c.members)) [
  | inl missing ↦ absurd (ground (arith, h, has_next_lem c g, missing))
  | inr (m, known) ↦
      lookup-length m.revision (patches_of c g) (ground (arith, h, has_next_lem c g, known))
]
