-- ===== src/GroupController/Patches/RoundTrip.antt =====
-- The patch between two lists of members, applied to the first one, gives the second one.
use mathlib.Core.Path.{subst}
use everoute.Common.{
  ◌≡◌, refl, true, Option, none, some, List, [], ◌∷◌, ◌++◌, any, fold, string_eq, String, arith,
  Bool-cases, inl, inr, if◌then◌else◌, ap, sym, ◌∙◌,
}
use everoute.Common.Dict.{lookup, values, lookup-delete, is_some}
use everoute.Common.Set.{has}
use everoute.Api.{EndpointReference, GroupMember, GroupMembers, reference_eq}
use everoute.Utils.Equality.{equal_ips→has, equal_string_slice→has}
use everoute.GroupController.Patches.{
  Members, set_member, unset_member, Diff, is_changed, append_member, diff_members, patch_members,
  to_members, patch_of, to_group_members_patch, apply_group_members_patch,
}
use everoute.GroupController.Patches.Contents.{
  named, last_named, IsUnique, or_else, IsProper, lookup-set_all, lookup-unset_all,
  last_named-append, any-values, unset-IsProper, lookup-to_members, lookup-values,
  patch_members-IsProper, to_members-IsProper,
}

-- what stands in the diff at a reference with the given member before and after
abbrev pub added_at : Option GroupMember → Option GroupMember → Option GroupMember
added_at none new = new
added_at (some old) new = none

abbrev pub updated_at : Option GroupMember → Option GroupMember → Option GroupMember
updated_at none new = none
updated_at (some old) none = none
updated_at (some old) (some m) = if is_changed old m then some m else none

abbrev pub left_at : Option GroupMember → Option GroupMember → Option GroupMember
left_at old none = old
left_at old (some m) = none

pub record IsDiff (old new : Option GroupMember) (k : EndpointReference) (diff : Diff)
    : Type 0 where
  pub added : last_named k diff.added ≡ added_at old new
  pub updated : last_named k diff.updated ≡ updated_at old new
  pub left : lookup k diff.prev_ep_map ≡ left_at old new

append_member-IsDiff :
    (k : EndpointReference) (found old later : Option GroupMember) (m : GroupMember) (diff : Diff)
    → IsDiff (if named k m then none else old) later k diff
    → (named k m ≡ true → found ≡ old)
    → (named k m ≡ true → later ≡ none)
    → IsDiff old (or_else later (if named k m then some m else none)) k (append_member found m diff)
unfolding append_member
append_member-IsDiff k none old later m diff d f l = record {
  added = ground (arith, d.added, f, l);
  updated = ground (arith, d.updated, f, l);
  left = ground (arith, d.left, f, l);
}
append_member-IsDiff k (some prev) old later m diff d f l = record {
  added = ground (arith, d.added, f, l);
  updated = ground (arith, d.updated, f, l);
  left = ground (arith, d.left, f, l);
}

pub diff_members-IsDiff :
    (k : EndpointReference) (prev : Members) (ms : List GroupMember)
    → IsUnique ms
    → IsDiff (lookup k prev) (last_named k ms) k (diff_members prev ms)
unfolding diff_members
diff_members-IsDiff k prev [] u = record {
  added = ground arith;
  updated = ground arith;
  left = ground arith;
}
diff_members-IsDiff k prev (m ∷ ms) u =
    let j = m.endpoint_reference in
    let gone : lookup k (unset_member prev m) ≡ (if named k m then none else lookup k prev) =
      lookup-delete j k prev in
    append_member-IsDiff k (lookup j prev) (lookup k prev) (last_named k ms) m
      (diff_members (unset_member prev m) ms)
      (subst (λ old. IsDiff old (last_named k ms) k (diff_members (unset_member prev m) ms)) gone
        (diff_members-IsDiff k (unset_member prev m) ms u.1))
      (λ same. ap (λ r. lookup r prev) ((reference_eq.beq_iff j k).0 same))
      (λ same. ap (λ r. last_named r ms) (sym ((reference_eq.beq_iff j k).0 same)) ∙ u.0)

append_member-left :
    (found : Option GroupMember) (m : GroupMember) (diff : Diff)
    → diff.prev_ep_map ≡ (append_member found m diff).prev_ep_map
unfolding append_member
append_member-left none m diff = refl
append_member-left (some old) m diff = ground arith

diff_members-IsProper :
    (prev : Members) (ms : List GroupMember)
    → IsProper prev
    → IsProper (diff_members prev ms).prev_ep_map
unfolding diff_members
diff_members-IsProper prev [] p = p
diff_members-IsProper prev (m ∷ ms) p =
    subst IsProper
      (append_member-left (lookup m.endpoint_reference prev) m
        (diff_members (unset_member prev m) ms))
      (diff_members-IsProper (unset_member prev m) ms (unset-IsProper prev m p))

-- the member that the patched list holds, by the member before and after
abbrev pub merged : Option GroupMember → Option GroupMember → Option GroupMember
merged old none = none
merged none (some m) = some m
merged (some old) (some m) = if is_changed old m then some m else some old

merge :
    (k : EndpointReference) (prev : Members) (old new : Option GroupMember) (diff : Diff)
    → IsDiff old new k diff
    → lookup k prev ≡ old
    → IsProper diff.prev_ep_map
    → (if any (named k) (values diff.prev_ep_map)
        then none
        else lookup k (fold set_member prev (diff.added ++ diff.updated)))
      ≡ merged old new
merge k prev old new diff d before proper = ground (
  arith,
  before,
  d.added,
  d.updated,
  d.left,
  any-values k diff.prev_ep_map proper.0,
  lookup-set_all k prev (diff.added ++ diff.updated),
  last_named-append k diff.added diff.updated,
)

pub patch_members-merged :
    (k : EndpointReference) (prev : Members) (ms : List GroupMember)
    → IsProper prev
    → IsUnique ms
    → lookup k (patch_members prev (patch_of (diff_members prev ms)))
      ≡ merged (lookup k prev) (last_named k ms)
unfolding patch_members
patch_members-merged k prev ms proper u =
    let diff = diff_members prev ms in
    let d = diff_members-IsDiff k prev ms u in
    lookup-unset_all k (fold set_member prev (diff.added ++ diff.updated)) (values diff.prev_ep_map)
    ∙ merge k prev (lookup k prev) (last_named k ms) diff d refl
        (diff_members-IsProper prev ms proper)

abbrev pub ips_of : Option GroupMember → List String
ips_of none = []
ips_of (some m) = m.ips

abbrev pub agents_of : Option GroupMember → List String
agents_of none = []
agents_of (some m) = m.endpoint_agent

-- a member is there before if it is there after, with the same addresses and agents
pub record SameMember (a b : Option GroupMember) : Type 0 where
  pub present : is_some a ≡ is_some b
  pub ips : (ip : String) → has ip (ips_of a) ≡ has ip (ips_of b)
  pub agents : (agent : String) → has agent (agents_of a) ≡ has agent (agents_of b)

merged-SameMember : (old new : Option GroupMember) → SameMember (merged old new) new
unfolding is_changed
merged-SameMember old none = record { present = refl; ips = λ ip. refl; agents = λ agent. refl }
merged-SameMember none (some m) = record {
  present = refl;
  ips = λ ip. refl;
  agents = λ agent. refl;
}
merged-SameMember (some old) (some m) = elim (Bool-cases (is_changed old m)) [
  | inl changed ↦ rw changed (record { present = refl; ips = λ ip. refl; agents = λ agent. refl })
  | inr same ↦ rw same (record {
    present = refl;
    ips = λ ip. equal_ips→has ip old.ips m.ips (ground (arith, same));
    agents = λ agent.
        equal_string_slice→has agent old.endpoint_agent m.endpoint_agent (ground (arith, same));
  })
]

-- If no two current members have one reference, ToGroupMembersPatch gives a patch that turns the
-- previous members into the current ones: under every reference there is a member afterwards
-- exactly if there is one among the current members, with the same addresses and agents.
pub to_group_members_patch-roundtrip :
    (prev curr : GroupMembers) (k : EndpointReference)
    → IsUnique curr.group_members
    → SameMember
        (lookup k (
          to_members
            (apply_group_members_patch prev
              (to_group_members_patch (some prev) (some curr))).group_members))
        (lookup k (to_members curr.group_members))
unfolding to_group_members_patch apply_group_members_patch
to_group_members_patch-roundtrip prev curr k u =
    let before = to_members prev.group_members in
    let proper = to_members-IsProper prev.group_members in
    let patch = to_group_members_patch (some prev) (some curr) in
    subst
      (λ new.
        SameMember (lookup k (to_members (apply_group_members_patch prev patch).group_members)) new)
      (sym (lookup-to_members k curr.group_members))
      (subst (λ old. SameMember old (last_named k curr.group_members))
        (sym (
          lookup-values k (patch_members before patch) (patch_members-IsProper before patch proper)
          ∙ patch_members-merged k before curr.group_members proper u))
        (merged-SameMember (lookup k before) (last_named k curr.group_members)))
