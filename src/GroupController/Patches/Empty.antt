-- ===== src/GroupController/Patches/Empty.antt =====
-- When the patch between two lists of members is empty.
use everoute.Common.{
  ◌≡◌, refl, ◌∙◌, true, false, Option, none, some, List, [], ◌∷◌, arith, Bool-cases, inl, inr,
  string_eq,
}
use everoute.Common.Dict.{lookup, values, is_some, lookup-delete}
use mathlib.Core.Path.{subst}
use everoute.Api.{EndpointReference, GroupMember, GroupMembers, reference_eq, GroupMembersPatch}
use everoute.Labels.{is_nil}
use everoute.Utils.Equality.{equal_ips_refl, equal_string_slice_refl}
use everoute.GroupController.Patches.{
  Members, is_changed, diff_members, to_members, patch_of, to_group_members_patch, is_empty_patch,
  apply_group_members_patch, patch_members, Diff, append_member, unset_member,
}
use everoute.GroupController.Patches.Contents.{
  last_named, IsUnique, lookup-values, patch_members-IsProper, to_members-IsProper,
}
use everoute.GroupController.Patches.RoundTrip.{
  IsDiff, added_at, updated_at, left_at, diff_members-IsDiff, merged, patch_members-merged,
  SameMember, to_group_members_patch-roundtrip,
}

nothing_named :
    (ms : List GroupMember) → ((k : EndpointReference) → last_named k ms ≡ none) → is_nil ms ≡ true
nothing_named [] h = refl
nothing_named (m ∷ ms) h = absurd (
    ground (
      arith,
      h m.endpoint_reference,
      reference_eq.beq_iff m.endpoint_reference m.endpoint_reference,
    ))

nothing_there :
    (members : Members)
    → ((k : EndpointReference) → lookup k members ≡ none)
    → is_nil (values members) ≡ true
unfolding lookup
nothing_there [] h = refl
nothing_there ((k, m) ∷ rest) h = absurd (ground (arith, h k, reference_eq.beq_iff k k))

is_changed_refl : (m : GroupMember) → is_changed m m ≡ false
unfolding is_changed
is_changed_refl m = ground (arith, equal_ips_refl m.ips, equal_string_slice_refl m.endpoint_agent)

-- after the merge nothing is left to do
settled :
    (old new : Option GroupMember)
    → (added_at (merged old new) new ≡ none)
      × (updated_at (merged old new) new ≡ none)
      × (left_at (merged old new) new ≡ none)
settled old none = (refl, refl, refl)
settled none (some m) = (refl, ground (arith, is_changed_refl m), refl)
settled (some old) (some m) = elim (Bool-cases (is_changed old m)) [
  | inl changed ↦ rw changed (refl, ground (arith, is_changed_refl m), refl)
  | inr same ↦ rw same (refl, ground (arith, same), refl)
]

empty_diff :
    (prev : Members) (old : EndpointReference → Option GroupMember) (curr : List GroupMember)
    → IsUnique curr
    → ((k : EndpointReference) → lookup k prev ≡ merged (old k) (last_named k curr))
    → is_empty_patch (patch_of (diff_members prev curr)) ≡ true
unfolding is_empty_patch
empty_diff prev old curr u h =
    let diff = diff_members prev curr in
    let at : (k : EndpointReference)
        → IsDiff (merged (old k) (last_named k curr)) (last_named k curr) k diff =
      λ k.
        subst (λ o. IsDiff o (last_named k curr) k diff) (h k)
          (diff_members-IsDiff k prev curr u) in
    ground (
      arith,
      nothing_there diff.prev_ep_map (λ k. (at k).left ∙ (settled (old k) (last_named k curr)).2),
      nothing_named diff.added (λ k. (at k).added ∙ (settled (old k) (last_named k curr)).0),
      nothing_named diff.updated (λ k. (at k).updated ∙ (settled (old k) (last_named k curr)).1),
    )

-- If no two current members have one reference, the patch from the patched members to the current
-- ones is empty: a second round with the same members has nothing to do.
pub to_group_members_patch-settles :
    (prev curr : GroupMembers)
    → IsUnique curr.group_members
    → is_empty_patch (
        to_group_members_patch
          (some (apply_group_members_patch prev (to_group_members_patch (some prev) (some curr))))
          (some curr))
      ≡ true
unfolding to_group_members_patch apply_group_members_patch
to_group_members_patch-settles prev curr u =
    let before = to_members prev.group_members in
    let proper = to_members-IsProper prev.group_members in
    let patch = to_group_members_patch (some prev) (some curr) in
    empty_diff (to_members (apply_group_members_patch prev patch).group_members)
      (λ k. lookup k before) curr.group_members u
      (λ k.
        lookup-values k (patch_members before patch) (patch_members-IsProper before patch proper)
        ∙ patch_members-merged k before curr.group_members proper u)

no_members : (ms : List GroupMember) → is_nil ms ≡ true → ms ≡ []
no_members [] h = refl
no_members (m ∷ ms) h = absurd (ground arith)

empty_patch-same :
    (k : EndpointReference) (prev : GroupMembers) (patch : GroupMembersPatch)
    → is_empty_patch patch ≡ true
    → lookup k (to_members (apply_group_members_patch prev patch).group_members)
      ≡ lookup k (to_members prev.group_members)
unfolding is_empty_patch apply_group_members_patch patch_members
empty_patch-same k prev patch h =
    let before = to_members prev.group_members in
    let added = no_members patch.added_group_members (ground (arith, h)) in
    let updated = no_members patch.updated_group_members (ground (arith, h)) in
    let removed = no_members patch.removed_group_members (ground (arith, h)) in
    lookup-values k (patch_members before patch)
      (patch_members-IsProper before patch (to_members-IsProper prev.group_members))
    ∙ rw (added, updated, removed) refl

append_member-not_added :
    (found : Option GroupMember) (m : GroupMember) (diff : Diff)
    → is_nil (append_member found m diff).added ≡ true
    → (is_some found ≡ true) × (is_nil diff.added ≡ true)
unfolding append_member
append_member-not_added none m diff h = absurd (ground arith)
append_member-not_added (some old) m diff h = (refl, ground (arith, h))

-- nothing is added: every member is a previous one, and none is named twice
nothing_added :
    (prev : Members) (ms : List GroupMember)
    → is_nil (diff_members prev ms).added ≡ true
    → IsUnique ms × ((k : EndpointReference) → lookup k prev ≡ none → last_named k ms ≡ none)
unfolding diff_members
nothing_added prev [] h = (tt, λ k gone. refl)
nothing_added prev (m ∷ ms) h =
    let j = m.endpoint_reference in
    let (there, rest) =
      append_member-not_added (lookup j prev) m (diff_members (unset_member prev m) ms) h in
    let (u, known) = nothing_added (unset_member prev m) ms rest in
    (
      (known j (ground (arith, lookup-delete j j prev, reference_eq.beq_iff j j)), u),
      λ k gone.
          ground (arith, there, gone, known k, lookup-delete j k prev, reference_eq.beq_iff j k),
    )

empty_patch-IsUnique :
    (prev curr : GroupMembers)
    → is_empty_patch (to_group_members_patch (some prev) (some curr)) ≡ true
    → IsUnique curr.group_members
unfolding is_empty_patch to_group_members_patch
empty_patch-IsUnique prev curr h =
    (nothing_added (to_members prev.group_members) curr.group_members (ground (arith, h))).0

-- If the patch is empty, no two current members have one reference, and the lists already have
-- the same members with the same addresses and agents.
pub is_empty_patch-SameMember :
    (prev curr : GroupMembers)
    → is_empty_patch (to_group_members_patch (some prev) (some curr)) ≡ true
    → IsUnique curr.group_members
      × ((k : EndpointReference)
          → SameMember
              (lookup k (to_members prev.group_members))
              (lookup k (to_members curr.group_members)))
is_empty_patch-SameMember prev curr h =
    let u = empty_patch-IsUnique prev curr h in
    (
      u,
      λ k.
          subst (λ old. SameMember old (lookup k (to_members curr.group_members)))
            (empty_patch-same k prev (to_group_members_patch (some prev) (some curr)) h)
            (to_group_members_patch-roundtrip prev curr k u),
    )
