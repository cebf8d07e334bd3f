-- ===== src/GroupController/Patches.antt =====
-- Group members and their patches: the functions ToGroupMembersPatch, IsEmptyPatch,
-- ApplyGroupMembersPatches and applyGroupMembersPatch of
-- pkg/controller/group/group_controller.go. A range over a map takes the entries in the order of
-- the list that stands for the map.
pub mod Agent
pub mod Contents
pub mod Loop
pub mod Empty
pub mod RoundTrip
use everoute.Common.{
  ℕ, zero, suc, String, Bool, ◌&&◌, ◌||◌, not, Option, none, some, List, [], ◌∷◌, ◌++◌, fold,
  length, if◌then◌else◌, nat_eq,
}
use everoute.Common.Dict.{Dict, lookup, insert, delete, values}
use everoute.Api.{EndpointReference, GroupMember, GroupMembers, GroupMembersPatch, reference_eq}
use everoute.Cache.{next_revision}
use everoute.Labels.{is_nil}
use everoute.Utils.{equal_ips, equal_string_slice}

abbrev pub Members : Type 0
Members = Dict EndpointReference GroupMember

-- members[member.EndpointReference] = member
abbrev pub set_member : Members → GroupMember → Members
set_member members member = insert member.endpoint_reference member members

-- delete(members, member.EndpointReference)
abbrev pub unset_member : Members → GroupMember → Members
unset_member members member = delete member.endpoint_reference members

abbrev pub to_members : List GroupMember → Members
to_members = fold set_member []

-- what the loop over the current members leaves
pub record Diff : Type 0 where
  pub prev_ep_map : Members
  pub added : List GroupMember
  pub updated : List GroupMember

unfoldable pub is_changed : GroupMember → GroupMember → Bool
is_changed prev_ep member =
    not (equal_ips prev_ep.ips member.ips)
    || not (equal_string_slice prev_ep.endpoint_agent member.endpoint_agent)

-- the lists that the loop appends to, a member in front of those of the later rounds
unfoldable pub append_member : Option GroupMember → GroupMember → Diff → Diff
unfolding is_changed
append_member none member diff = record diff { added = member ∷ diff.added }
append_member (some prev_ep) member diff =
    if is_changed prev_ep member then record diff { updated = member ∷ diff.updated } else diff

unfoldable pub diff_members : Members → List GroupMember → Diff
unfolding append_member
diff_members prev_ep_map [] = record { prev_ep_map = prev_ep_map; added = []; updated = [] }
diff_members prev_ep_map (member ∷ rest) =
    append_member (lookup member.endpoint_reference prev_ep_map) member
      (diff_members (unset_member prev_ep_map member) rest)

-- a nil pointer reads as no members
abbrev pub members_or_empty : Option GroupMembers → List GroupMember
members_or_empty none = []
members_or_empty (some members) = members.group_members

abbrev pub patch_of : Diff → GroupMembersPatch
patch_of diff = record {
  name = "";
  applied_to_group_members = record { name = ""; revision = 0 };
  added_group_members = diff.added;
  updated_group_members = diff.updated;
  removed_group_members = values diff.prev_ep_map;
}

unfoldable pub to_group_members_patch :
    Option GroupMembers → Option GroupMembers → GroupMembersPatch
unfolding diff_members
to_group_members_patch prev curr =
    patch_of (diff_members (to_members (members_or_empty prev)) (members_or_empty curr))

unfoldable pub is_empty_patch : GroupMembersPatch → Bool
is_empty_patch patch =
    is_nil patch.removed_group_members
    && is_nil patch.added_group_members
    && is_nil patch.updated_group_members

-- the loops of applyGroupMembersPatch over the map of members
unfoldable pub patch_members : Members → GroupMembersPatch → Members
patch_members members patch =
    fold unset_member
      (fold set_member members (patch.added_group_members ++ patch.updated_group_members))
      patch.removed_group_members

unfoldable pub apply_group_members_patch : GroupMembers → GroupMembersPatch → GroupMembers
unfolding patch_members
apply_group_members_patch group_members patch = record group_members {
  group_members = values (patch_members (to_members group_members.group_members) patch);
}

abbrev pub PatchSet : Type 0
PatchSet = Dict ℕ GroupMembersPatch

-- patchSet[patch.AppliedToGroupMembers.Revision] = patch
abbrev pub set_patch : PatchSet → GroupMembersPatch → PatchSet
set_patch patch_set patch = insert patch.applied_to_group_members.revision patch patch_set

abbrev pub to_patch_set : List GroupMembersPatch → PatchSet
to_patch_set = fold set_patch []

-- applyGroupMembersPatch and groupmembers.Revision++
unfoldable pub advance : GroupMembers → GroupMembersPatch → GroupMembers
unfolding apply_group_members_patch
advance group_members patch = record (apply_group_members_patch group_members patch) {
  revision = next_revision group_members.revision;
}

-- the loop until no patch fits the revision; `none` where the fuel runs out
unfoldable pub apply_loop : ℕ → PatchSet → GroupMembers → Option GroupMembers
unfolding advance
apply_loop zero patch_set group_members = none
apply_loop (suc fuel) patch_set group_members = elim (lookup group_members.revision patch_set) [
  | none ↦ some group_members
  | some patch ↦ apply_loop fuel patch_set (advance group_members patch)
]

-- The fuel is one round more than there are patches.
unfoldable pub apply_group_members_patches :
    GroupMembers → List GroupMembersPatch → Option GroupMembers
unfolding apply_loop
apply_group_members_patches group_members patches =
    apply_loop (suc (length patches)) (to_patch_set patches) group_members
