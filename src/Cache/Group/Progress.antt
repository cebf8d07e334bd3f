-- ===== src/Cache/Group/Progress.antt =====
-- A patch that NextPatch returns is the one that ApplyPatch expects, and what the addresses of a
-- group are.
use everoute.Common.{
  ℕ, ◌+◌, ◌≡◌, ◌≢◌, String, none, some, [], fold, any, nat_eq, string_eq, ok, arith, Option-cases,
  inl, inr,
}
use everoute.Common.Dict.{
  lookup, delete, values, IsDistinct, lookup-insert, lookup-delete, length-delete,
}
use everoute.Common.Set.{has}
use everoute.Api.{GroupMembersPatch}
use everoute.Cache.{Items, add_member}
use everoute.Cache.Members.{
  agents_at, present, serves, serves_at, members-agents_nil, members-present_nil,
}
use everoute.Cache.Group.{
  GroupCache, GroupPatch, GroupMembership, patches_of, next_patch, to_group_patch, apply_patch,
  after_patch, patched, patch_len, list_group_ip_blocks,
}

-- When NextPatch returns a patch
pub next_patch-cases :
    (cache : GroupCache) (name : String) (patch : GroupPatch)
    → next_patch cache name ≡ some patch
    → (m : GroupMembership) × (source : GroupMembersPatch) × (lookup name cache.members ≡ some m)
      × (lookup m.revision (patches_of cache name) ≡ some source)
      × (patch ≡ to_group_patch name m source)
unfolding next_patch
next_patch-cases cache name patch h = elim (Option-cases (lookup name cache.members)) [
  | inl missing ↦ absurd (ground arith)
  | inr (m, known) ↦ elim (Option-cases (lookup m.revision (patches_of cache name))) [
    | inl absent ↦ absurd (ground arith)
    | inr (source, stored) ↦ (m, source, known, stored, ground arith)
  ]
]

-- what a round of ReconcilePatch leaves in the cache
pub record Applied (cache cache' : GroupCache) (name : String) (m : GroupMembership)
    (source : GroupMembersPatch) : Type 0 where
  pub member : lookup name cache'.members ≡ some (patched m m.revision source)
  pub gone : lookup m.revision (patches_of cache' name) ≡ none
  pub fewer : patch_len cache' name + 1 ≡ patch_len cache name
  pub other_members : (g : String) → g ≢ name → lookup g cache'.members ≡ lookup g cache.members
  pub other_patches : (g : String) → g ≢ name → patches_of cache' g ≡ patches_of cache g

-- If NextPatch returns a patch for a group, ApplyPatch accepts it: the group moves to the next
-- revision with the members of the patch, the patch is dropped, the group has one patch less,
-- and no other group changes.
pub apply_patch-next_patch :
    (cache : GroupCache) (name : String) (patch : GroupPatch)
    → IsDistinct (patches_of cache name)
    → next_patch cache name ≡ some patch
    → (m : GroupMembership) × (source : GroupMembersPatch) × (cache' : GroupCache) × (lookup name
          cache.members
        ≡ some m)
      × (lookup m.revision (patches_of cache name) ≡ some source)
      × (apply_patch cache patch ≡ ok cache')
      × Applied cache cache' name m source
unfolding apply_patch to_group_patch patch_len
apply_patch-next_patch cache name patch unique h =
    let (m, source, known, stored, shape) = next_patch-cases cache name patch h in
    let rest = delete m.revision (patches_of cache name) in
    let next = patched m m.revision source in
    (
      m,
      source,
      after_patch cache name m source,
      known,
      stored,
      rw shape (ground (arith, known, stored)),
      record {
        member =
            ground (arith, lookup-insert name name next cache.members, string_eq.beq_iff name name);
        gone = ground (
          arith,
          lookup-insert name name rest cache.patches,
          string_eq.beq_iff name name,
          lookup-delete m.revision m.revision (patches_of cache name),
        );
        fewer = ground (
          arith,
          lookup-insert name name rest cache.patches,
          string_eq.beq_iff name name,
          length-delete m.revision (patches_of cache name) unique source stored,
        );
        other_members = λ g ne.
            ground (arith, lookup-insert name g next cache.members, string_eq.beq_iff name g);
        other_patches = λ g ne.
            ground (arith, lookup-insert name g rest cache.patches, string_eq.beq_iff name g);
      },
    )

-- ListGroupIPBlocks lists an address exactly if a member of the group has it, and lists an agent
-- with the address exactly if such a member is at the agent.
pub list_group_ip_blocks-members :
    (cache : GroupCache) (name : String) (revision : ℕ) (items : Items)
    → list_group_ip_blocks cache name ≡ some (revision, items)
    → (m : GroupMembership) × (lookup name cache.members ≡ some m)
      × (revision ≡ m.revision)
      × ((cidr : String) → present cidr items ≡ any (serves cidr) (values m.endpoints))
      × ((cidr agent : String)
          → has agent (agents_at cidr items) ≡ any (serves_at cidr agent) (values m.endpoints))
unfolding list_group_ip_blocks
list_group_ip_blocks-members cache name revision items h =
    elim (Option-cases (lookup name cache.members)) [
      | inl missing ↦ absurd (ground arith)
      | inr (m, known) ↦
          let same : items ≡ fold add_member [] (values m.endpoints) = ground arith in
          (
            m,
            known,
            ground arith,
            λ cidr. rw same (members-present_nil (values m.endpoints) cidr),
            λ cidr agent. rw same (members-agents_nil (values m.endpoints) cidr agent),
          )
    ]
