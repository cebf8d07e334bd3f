-- ===== src/Cache/Group/Current.antt =====
-- The patches that wait in a GroupCache are not older than their group.
use everoute.Common.{
  ℕ, ◌<◌, ◌≡◌, ◌≢◌, String, false, some, Option-cases, inl, inr, nat_eq, string_eq, ok, arith, ◌⊎◌,
  ◌∙◌,
}
use everoute.Common.Dict.{
  lookup, insert, delete, delete_if, lookup-nil, lookup-insert, lookup-delete, lookup-delete_if,
}
use everoute.Api.{GroupMembers, GroupMembersPatch}
use everoute.Cache.{i32_mod, next_revision, revision_lt}
use everoute.Cache.Group.{
  GroupCache, GroupPatch, GroupMembership, patches_of, add_patch, apply_patch, add_group_membership,
  membership_of, patched, after_patch, del_group_membership, new_group_cache,
}

-- Revisions are int32 patterns, and every patch of a known group has the revision of the group or
-- a later one.
pub record IsCurrent (cache : GroupCache) : Type 0 where
  pub not_old :
      (g : String) (r : ℕ) (m : GroupMembership) (p : GroupMembersPatch)
      → lookup g cache.members ≡ some m
      → lookup r (patches_of cache g) ≡ some p
      → revision_lt r m.revision ≡ false
  pub is_int32 :
      (g : String) (r : ℕ) (p : GroupMembersPatch)
      → lookup r (patches_of cache g) ≡ some p
      → r < i32_mod

pub new_group_cache-IsCurrent : IsCurrent new_group_cache
unfolding new_group_cache patches_of lookup
new_group_cache-IsCurrent = record {
  not_old = λ g r m p h k. absurd (ground arith);
  is_int32 = λ g r p h. absurd (ground arith);
}

-- AddPatch keeps the invariant: a patch that is older than its group is ignored.
pub add_patch-IsCurrent :
    (cache : GroupCache) (patch : GroupMembersPatch)
    → patch.applied_to_group_members.revision < i32_mod
    → IsCurrent cache
    → IsCurrent (add_patch cache patch)
unfolding add_patch
add_patch-IsCurrent cache patch small c =
    let name = patch.applied_to_group_members.name in
    let revision = patch.applied_to_group_members.revision in
    record {
      not_old = λ g r m p h k. ground (
        arith,
        c.not_old g r m p,
        lookup-insert name g (insert revision patch (patches_of cache name)) cache.patches,
        lookup-insert revision r patch (patches_of cache name),
        string_eq.beq_iff name g,
      );
      is_int32 = λ g r p k. ground (
        arith,
        c.is_int32 g r p,
        lookup-insert name g (insert revision patch (patches_of cache name)) cache.patches,
        lookup-insert revision r patch (patches_of cache name),
        string_eq.beq_iff name g,
      );
    }

-- AddGroupMembership keeps the invariant: it drops the patches that came before the group and are
-- older.
pub add_group_membership-IsCurrent :
    (cache : GroupCache) (members : GroupMembers)
    → IsCurrent cache
    → IsCurrent (add_group_membership cache members)
unfolding add_group_membership
add_group_membership-IsCurrent cache members c =
    let old = λ (r : ℕ). revision_lt r members.revision in
    let kept = delete_if old (patches_of cache members.name) in
    record {
      not_old = λ g r m p h k. ground (
        arith,
        c.not_old g r m p,
        lookup-insert members.name g kept cache.patches,
        lookup-insert members.name g (membership_of members) cache.members,
        lookup-delete_if old r (patches_of cache members.name),
        string_eq.beq_iff members.name g,
      );
      is_int32 = λ g r p k. ground (
        arith,
        c.is_int32 g r p,
        lookup-insert members.name g kept cache.patches,
        lookup-delete_if old r (patches_of cache members.name),
        string_eq.beq_iff members.name g,
      );
    }

pub del_group_membership-IsCurrent :
    (cache : GroupCache) (name : String)
    → IsCurrent cache
    → IsCurrent (del_group_membership cache name)
unfolding del_group_membership patches_of
del_group_membership-IsCurrent cache name c = record {
  not_old = λ g r m p h k. ground (
    arith,
    c.not_old g r m p,
    lookup-delete name g cache.patches,
    lookup-delete name g cache.members,
  );
  is_int32 = λ g r p k. ground (
    arith,
    c.is_int32 g r p,
    lookup-delete name g cache.patches,
    lookup-nil {V = GroupMembersPatch} r,
  );
}

-- the next revision is later than no other revision that is not older than this one
next_not_old :
    (r old : ℕ)
    → r < i32_mod
    → old < i32_mod
    → old ≢ 2147483647
    → r ≢ old
    → revision_lt r old ≡ false
    → revision_lt r (next_revision old) ≡ false
unfolding revision_lt next_revision
next_not_old r old small low top ne h = ground arith

-- The three ways in which ApplyPatch returns.
pub apply_patch-cases :
    (cache cache' : GroupCache) (patch : GroupPatch)
    → apply_patch cache patch ≡ ok cache'
    → (cache' ≡ cache)
      ⊎ ((m : GroupMembership) × (source : GroupMembersPatch) × (lookup patch.group_name
              cache.members
            ≡ some m)
          × (patch.revision ≡ m.revision)
          × (lookup m.revision (patches_of cache patch.group_name) ≡ some source)
          × (cache' ≡ after_patch cache patch.group_name m source))
unfolding apply_patch
apply_patch-cases cache cache' patch h =
    elim (Option-cases (lookup patch.group_name cache.members)) [
      | inl missing ↦ inl (ground arith)
      | inr (m, known) ↦
          elim (Option-cases (lookup patch.revision (patches_of cache patch.group_name))) [
            | inl absent ↦ inl (ground arith)
            | inr (source, stored) ↦
                let same : patch.revision ≡ m.revision = ground arith in
                inr (m, source, known, same, rw (← same) stored, ground arith)
          ]
    ]

after_patch-IsCurrent :
    (cache : GroupCache) (name : String) (m : GroupMembership) (source : GroupMembersPatch)
    → lookup name cache.members ≡ some m
    → lookup m.revision (patches_of cache name) ≡ some source
    → m.revision ≢ 2147483647
    → IsCurrent cache
    → IsCurrent (after_patch cache name m source)
unfolding after_patch
after_patch-IsCurrent cache name m source known stored top c =
    let rest = delete m.revision (patches_of cache name) in
    let next = patched m m.revision source in
    record {
      not_old = λ g r m' p h k. ground (
        arith,
        c.not_old g r m' p,
        c.not_old name r m p,
        c.is_int32 name r p,
        c.is_int32 name m.revision source,
        lookup-insert name g rest cache.patches,
        lookup-insert name g next cache.members,
        lookup-delete m.revision r (patches_of cache name),
        next_not_old r m.revision,
        string_eq.beq_iff name g,
      );
      is_int32 = λ g r p k. ground (
        arith,
        c.is_int32 g r p,
        lookup-insert name g rest cache.patches,
        lookup-delete m.revision r (patches_of cache name),
        string_eq.beq_iff name g,
      );
    }

-- ApplyPatch keeps the invariant, unless the revision of the patch is the greatest int32.
pub apply_patch-IsCurrent :
    (cache cache' : GroupCache) (patch : GroupPatch)
    → apply_patch cache patch ≡ ok cache'
    → patch.revision ≢ 2147483647
    → IsCurrent cache
    → IsCurrent cache'
apply_patch-IsCurrent cache cache' patch h top c = elim (apply_patch-cases cache cache' patch h) [
  | inl same ↦ rw same c
  | inr (m, source, known, revision, stored, after) ↦ rw after (
      after_patch-IsCurrent cache patch.group_name m source known stored (λ e. top (revision ∙ e))
        c)
]
