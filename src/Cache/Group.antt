-- ===== src/Cache/Group.antt =====
-- GroupCache of pkg/agent/controller/policy/cache/group.go. The lock makes each method one step, so
-- a method is a function from the cache to the cache. klog.Fatalf ends the process: the method
-- returns an error.
pub mod Current
pub mod Progress
pub mod Steps
use everoute.Common.{
  ℕ, String, Bool, true, false, Option, none, some, List, [], ◌∷◌, fold, length, ◌==◌, nat_eq,
  string_eq, if◌then◌else◌, Result, ok, err, not,
}
use everoute.Common.Dict.{Dict, lookup, insert, delete, delete_if, values}
use everoute.Api.{EndpointReference, GroupMember, GroupMembers, GroupMembersPatch, reference_eq}
use everoute.Cache.{Items, add_member, next_revision, revision_lt}

pub record GroupPatch : Type 0 where
  pub group_name : String
  pub revision : ℕ
  pub add : Items
  pub del : Items

abbrev pub Endpoints : Type 0
Endpoints = Dict EndpointReference GroupMember

pub record GroupMembership : Type 0 where
  pub name : String
  pub revision : ℕ
  pub endpoints : Endpoints

abbrev pub Patches : Type 0
Patches = Dict ℕ GroupMembersPatch

pub record GroupCache : Type 0 where
  pub patches : Dict String Patches
  pub members : Dict String GroupMembership

unfoldable pub new_group_cache : GroupCache
new_group_cache = record { patches = []; members = [] }

-- cache.patches[groupName], where a missing map reads as an empty one
abbrev pub or_empty : Option Patches → Patches
or_empty none = []
or_empty (some m) = m

unfoldable pub patches_of : GroupCache → String → Patches
patches_of cache group_name = or_empty (lookup group_name cache.patches)

-- whether the group is known with a later revision
unfoldable pub is_old : ℕ → Option GroupMembership → Bool
is_old revision none = false
is_old revision (some m) = revision_lt revision m.revision

unfoldable pub add_patch : GroupCache → GroupMembersPatch → GroupCache
unfolding is_old patches_of
add_patch cache patch =
    let group_name = patch.applied_to_group_members.name in
    let revision = patch.applied_to_group_members.revision in
    if is_old revision (lookup group_name cache.members) then cache else record cache {
      patches =
          insert group_name (insert revision patch (patches_of cache group_name)) cache.patches;
    }

-- the addresses of a member as the cache knows it; an unknown member has none
abbrev pub add_known : Endpoints → Items → GroupMember → Items
add_known endpoints items m = elim (lookup m.endpoint_reference endpoints) [
  | none ↦ items
  | some old ↦ add_member items old
]

unfoldable pub to_group_patch : String → GroupMembership → GroupMembersPatch → GroupPatch
to_group_patch group_name membership source = record {
  group_name = group_name;
  revision = membership.revision;
  add =
      fold add_member (fold add_member [] source.added_group_members) source.updated_group_members;
  del =
      fold add_member (fold (add_known membership.endpoints) [] source.updated_group_members)
        source.removed_group_members;
}

unfoldable pub next_patch : GroupCache → String → Option GroupPatch
unfolding patches_of to_group_patch
next_patch cache group_name = elim (lookup group_name cache.members) [
  | none ↦ none
  | some membership ↦ elim (lookup membership.revision (patches_of cache group_name)) [
    | none ↦ none
    | some source ↦ some (to_group_patch group_name membership source)
  ]
]

abbrev pub put_member : Endpoints → GroupMember → Endpoints
put_member endpoints m = insert m.endpoint_reference m endpoints

abbrev pub drop_member : Endpoints → GroupMember → Endpoints
drop_member endpoints m = delete m.endpoint_reference endpoints

-- the three loops of ApplyPatch
unfoldable pub patch_endpoints : GroupMembersPatch → Endpoints → Endpoints
patch_endpoints source endpoints =
    fold drop_member
      (fold put_member (fold put_member endpoints source.added_group_members)
        source.updated_group_members)
      source.removed_group_members

-- "expected state!": the revision of the patch and of the group
pub data Fatal : Type 0 where
  unexpected_revision : ℕ → ℕ → Fatal

-- the membership that a patch leaves
abbrev pub patched : GroupMembership → ℕ → GroupMembersPatch → GroupMembership
patched membership revision source = record membership {
  revision = next_revision revision;
  endpoints = patch_endpoints source membership.endpoints;
}

-- the cache that a patch for the revision of the group leaves
unfoldable pub after_patch : GroupCache → String → GroupMembership → GroupMembersPatch → GroupCache
unfolding patches_of patch_endpoints
after_patch cache group_name membership source = record {
  members = insert group_name (patched membership membership.revision source) cache.members;
  patches =
      insert group_name (delete membership.revision (patches_of cache group_name)) cache.patches;
}

unfoldable pub apply_patch : GroupCache → GroupPatch → Result Fatal GroupCache
unfolding patches_of after_patch
apply_patch cache patch = elim (lookup patch.group_name cache.members) [
  | none ↦ ok cache
  | some membership ↦
      if not (patch.revision == membership.revision)
      then err (unexpected_revision patch.revision membership.revision)
      else elim (lookup patch.revision (patches_of cache patch.group_name)) [
        | none ↦ ok cache
        | some source ↦ ok (after_patch cache patch.group_name membership source)
      ]
]

unfoldable pub patch_len : GroupCache → String → ℕ
unfolding patches_of
patch_len cache group_name = length (patches_of cache group_name)

abbrev pub membership_of : GroupMembers → GroupMembership
membership_of members = record {
  name = members.name;
  revision = members.revision;
  endpoints = fold put_member [] members.group_members;
}

unfoldable pub add_group_membership : GroupCache → GroupMembers → GroupCache
unfolding patches_of
add_group_membership cache members = elim (lookup members.name cache.members) [
  | some known ↦ cache
  | none ↦ record cache {
    patches =
        insert members.name
          (delete_if (λ revision. revision_lt revision members.revision)
            (patches_of cache members.name))
          cache.patches;
    members = insert members.name (membership_of members) cache.members;
  }
]

unfoldable pub del_group_membership : GroupCache → String → GroupCache
del_group_membership cache group_name = record {
  patches = delete group_name cache.patches;
  members = delete group_name cache.members;
}

-- the revision and the items; `none` where the group does not exist
unfoldable pub list_group_ip_blocks : GroupCache → String → Option (ℕ × Items)
list_group_ip_blocks cache group_name = elim (lookup group_name cache.members) [
  | none ↦ none
  | some membership ↦ some (membership.revision, fold add_member [] (values membership.endpoints))
]
