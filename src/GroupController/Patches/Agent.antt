-- ===== src/GroupController/Patches/Agent.antt =====
-- The agent and the controller apply a patch alike.
use everoute.Common.{
  ◌≡◌, refl, sym, ap, ◌∙◌, none, some, List, [], ◌∷◌, ◌++◌, fold, any, if◌then◌else◌,
}
use everoute.Common.Dict.{lookup}
use mathlib.Core.Path.{subst}
use everoute.Api.{EndpointReference, GroupMember, GroupMembers, GroupMembersPatch, reference_eq}
use everoute.Cache.Group.{Endpoints, patch_endpoints}
use everoute.GroupController.Patches.{
  Members, set_member, patch_members, to_members, apply_group_members_patch, to_group_members_patch,
}
use everoute.GroupController.Patches.Contents.{
  IsUnique, lookup-set_all, lookup-unset_all, lookup-values, patch_members-IsProper,
  to_members-IsProper, or_else, last_named,
}
use everoute.GroupController.Patches.RoundTrip.{SameMember, to_group_members_patch-roundtrip}

fold-append :
    (members : Members) (xs ys : List GroupMember)
    → fold set_member members (xs ++ ys) ≡ fold set_member (fold set_member members xs) ys
fold-append members [] ys = refl
fold-append members (x ∷ xs) ys = fold-append (set_member members x) xs ys

-- If the agent holds the members that the controller holds, it holds them after both have applied
-- one patch.
pub patch_endpoints-apply :
    (endpoints : Endpoints) (members : GroupMembers) (patch : GroupMembersPatch)
    → ((k : EndpointReference) → lookup k endpoints ≡ lookup k (to_members members.group_members))
    → (k : EndpointReference)
    → lookup k (patch_endpoints patch endpoints)
      ≡ lookup k (to_members (apply_group_members_patch members patch).group_members)
unfolding patch_endpoints apply_group_members_patch patch_members
patch_endpoints-apply endpoints members patch same k =
    let before = to_members members.group_members in
    let more = patch.added_group_members ++ patch.updated_group_members in
    let gone = patch.removed_group_members in
    let agent =
      fold set_member (fold set_member endpoints patch.added_group_members)
        patch.updated_group_members in
    let at_controller =
      lookup-values k (patch_members before patch)
        (patch_members-IsProper before patch (to_members-IsProper members.group_members)) in
    lookup-unset_all k agent gone
    ∙ ap (λ o. if any (λ m. reference_eq.beq m.endpoint_reference k) gone then none else o)
        (ap (lookup k)
            (sym (fold-append endpoints patch.added_group_members patch.updated_group_members))
          ∙ lookup-set_all k endpoints more
          ∙ ap (or_else (last_named k more)) (same k)
          ∙ sym (lookup-set_all k before more))
    ∙ sym (lookup-unset_all k (fold set_member before more) gone)
    ∙ sym at_controller

-- If an agent that holds the previous members of a group applies the patch that the controller
-- computes, and no two current members have one reference, the agent holds the current members
-- with their addresses and agents.
pub patch_endpoints-SameMember :
    (endpoints : Endpoints) (prev curr : GroupMembers)
    → ((k : EndpointReference) → lookup k endpoints ≡ lookup k (to_members prev.group_members))
    → IsUnique curr.group_members
    → (k : EndpointReference)
    → SameMember
        (lookup k (patch_endpoints (to_group_members_patch (some prev) (some curr)) endpoints))
        (lookup k (to_members curr.group_members))
patch_endpoints-SameMember endpoints prev curr same u k =
    let patch = to_group_members_patch (some prev) (some curr) in
    subst (λ o. SameMember o (lookup k (to_members curr.group_members)))
      (sym (patch_endpoints-apply endpoints prev patch same k))
      (to_group_members_patch-roundtrip prev curr k u)
