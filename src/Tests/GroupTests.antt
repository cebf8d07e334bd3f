-- ===== src/Tests/GroupTests.antt =====
-- The theorems on the group controller at concrete members, on a server that keeps one group.
use everoute.Common.{
  ℕ, ◌≡◌, ◌≢◌, refl, String, Bool, true, false, Option, none, some, List, [], ◌∷◌, All, any, ok,
  err, arith, inl, ◌==◌, string_eq, nat_eq, if◌then◌else◌, sym, Bool-cases, ◌≤◌, ◌<◌, inr,
}
use everoute.Common.Dict.{lookup, insert, keys}
use everoute.Common.Set.{has, is_superset}
use everoute.Common.Results.{Returns}
use everoute.Api.{
  EndpointReference, GroupMember, GroupMembers, GroupMembersPatch, Endpoint, EndpointGroup,
  reference_eq,
}
use everoute.Cache.Group.{patch_endpoints}
use everoute.GroupController.Patches.{
  to_members, to_group_members_patch, apply_group_members_patch, is_empty_patch,
  apply_group_members_patches,
}
use everoute.GroupController.Patches.RoundTrip.{SameMember, to_group_members_patch-roundtrip}
use everoute.GroupController.Patches.Contents.{IsUnique}
use everoute.GroupController.Patches.Agent.{patch_endpoints-SameMember}
use everoute.GroupController.Patches.Empty.{
  to_group_members_patch-settles, is_empty_patch-SameMember,
}
use everoute.GroupController.Patches.Loop.{fits, apply_group_members_patches-ends}
use everoute.Generator.{all_ep_with_named_port}
use everoute.GroupController.Select.{
  Reads, Namespace, not_found, fetch_curr_group_members, matched_endpoints, is_skipped,
  filter_endpoint_groups_by_endpoint,
}
use everoute.GroupController.Select.Events.{Anything, IsCoherent}
use everoute.GroupController.Select.Enqueued.{matched_endpoints-enqueued}
use everoute.GroupController.Reconcile.{Server, process_endpoint_group_update}
use everoute.GroupController.Reconcile.Round.{IsReliable, found_or_not}
use everoute.GroupController.Reconcile.Converges.{Agrees, process_endpoint_group_update-Agrees}

abbrev reference : String → EndpointReference
reference v = record { external_id_name = "id"; external_id_value = v }

abbrev member : String → List String → GroupMember
member v ips = record {
  endpoint_reference = reference v;
  endpoint_agent = "agent" ∷ [];
  ips = ips;
  ports = [];
}

-- one member that leaves, one that changes, one that stays
abbrev before : GroupMembers
before = record {
  name = "group";
  revision = 4;
  group_members =
      member "a" ("10.0.0.1" ∷ [])
      ∷ member "b" ("10.0.0.2" ∷ [])
      ∷ member "c" ("10.0.0.3" ∷ [])
      ∷ [];
}

abbrev after : GroupMembers
after = record {
  name = "group";
  revision = 0;
  group_members =
      member "b" ("10.0.0.9" ∷ [])
      ∷ member "c" ("10.0.0.3" ∷ [])
      ∷ member "d" ("10.0.0.4" ∷ [])
      ∷ [];
}

after-IsUnique : IsUnique after.group_members
after-IsUnique = (refl, (refl, (refl, tt)))

to_group_members_patch-roundtrip_example :
    SameMember
      (lookup (reference "b") (
        to_members
          (apply_group_members_patch before
            (to_group_members_patch (some before) (some after))).group_members))
      (lookup (reference "b") (to_members after.group_members))
to_group_members_patch-roundtrip_example =
    to_group_members_patch-roundtrip before after (reference "b") after-IsUnique

patch_endpoints-SameMember_example :
    SameMember
      (lookup (reference "a") (
        patch_endpoints
          (to_group_members_patch (some before) (some after))
          (to_members before.group_members)))
      (lookup (reference "a") (to_members after.group_members))
patch_endpoints-SameMember_example =
    patch_endpoints-SameMember (to_members before.group_members) before after (λ k. refl)
      after-IsUnique (reference "a")

to_group_members_patch-settles_example :
    is_empty_patch (
      to_group_members_patch
        (some
          (apply_group_members_patch before (to_group_members_patch (some before) (some after))))
        (some after))
    ≡ true
to_group_members_patch-settles_example = to_group_members_patch-settles before after after-IsUnique

abbrev patched : GroupMembers
patched = apply_group_members_patch before (to_group_members_patch (some before) (some after))

is_empty_patch-SameMember_example :
    IsUnique after.group_members
    × ((k : EndpointReference)
        → SameMember
            (lookup k (to_members patched.group_members))
            (lookup k (to_members after.group_members)))
is_empty_patch-SameMember_example =
    is_empty_patch-SameMember patched after
      (to_group_members_patch-settles before after after-IsUnique)

-- patches for the revisions 4 and 6
abbrev patch_for : ℕ → GroupMembersPatch
patch_for r = record {
  name = "patch";
  applied_to_group_members = record { name = "group"; revision = r };
  added_group_members = member "e" ("10.0.0.5" ∷ []) ∷ [];
  updated_group_members = [];
  removed_group_members = [];
}

abbrev two_patches : List GroupMembersPatch
two_patches = patch_for 6 ∷ patch_for 4 ∷ []

apply_group_members_patches-ends_example :
    (result : GroupMembers) × (apply_group_members_patches before two_patches ≡ some result)
    × (any (fits result.revision) two_patches ≡ false)
    × (4 ≤ result.revision)
    × ((r : ℕ) → 4 ≤ r → r < result.revision → any (fits r) two_patches ≡ true)
    × (result.revision ≡ 4 → result ≡ before)
    × (result.revision ≤ 6)
apply_group_members_patches-ends_example =
    apply_group_members_patches-ends before two_patches (ground arith)

-- a cluster of one namespace, one endpoint and one group
abbrev default_namespace : Namespace
default_namespace = record { name = "default"; labels = ("zone", "a") ∷ [] }

abbrev endpoint : Endpoint
endpoint = record {
  name = "ep";
  namespace = "default";
  labels = ("app", "web") ∷ [];
  spec = record {
    vid = 0;
    extend_labels = [];
    reference = reference "x";
    type = "dynamic";
    ports = [];
  };
  status = record { ips = "10.0.0.7" ∷ []; mac_address = ""; agents = "agent" ∷ [] };
}

abbrev group : EndpointGroup
group = record {
  name = "group";
  spec = record {
    endpoint_selector = some (record {
      match_labels = ("app", "web") ∷ [];
      match_expressions = [];
      extend_match_labels = [];
      match_nothing = false;
    });
    namespace_selector =
        some (record { match_labels = ("zone", "a") ∷ []; match_expressions = [] });
    namespace = none;
    endpoint = none;
  };
}

-- the namespaces that match, of one
abbrev matching : Bool → List Namespace
matching true = default_namespace ∷ []
matching false = []

abbrev small : Reads
small = record {
  as_selector = λ s. some (λ labels. has "zone" (keys labels));
  list_namespaces = λ p. ok (matching (p default_namespace.labels));
  get_namespace = λ n. ok default_namespace;
  get_endpoint = λ n. err not_found;
  list_endpoints = λ n. if n == "default" then ok (endpoint ∷ []) else ok [];
  list_groups = ok (group ∷ []);
}

matching-All :
    (b : Bool) (P : Namespace → Type 0) → (b ≡ true → P default_namespace) → All P (matching b)
matching-All true P h = (h refl, tt)
matching-All false P h = tt

has_name : default_namespace.name ≢ ""
has_name e = absurd (ground (arith, e, string_eq.beq_iff default_namespace.name ""))

small-IsCoherent : IsCoherent small
small-IsCoherent = record {
  named = λ n. tt;
  listed = λ n. elim (Bool-cases (n == "default")) [
    | inl same ↦
        rw same
          ((λ ne. sym ((string_eq.beq_iff n "default").0 same), (default_namespace, refl)), tt)
    | inr other ↦ rw other tt
  ];
  selected = λ p.
      matching-All (p default_namespace.labels)
        (λ ns. (ns.name ≢ "") × (p ns.labels ≡ true) × (small.get_namespace ns.name ≡ ok ns))
        (λ h. (has_name, h, refl));
}

matched_endpoints-enqueued_example :
    Returns Anything
      (All (λ ep.
        is_skipped (group.name == all_ep_with_named_port) ep ≡ false
        → has group.name (filter_endpoint_groups_by_endpoint small ep) ≡ true))
      (matched_endpoints small group)
matched_endpoints-enqueued_example =
    matched_endpoints-enqueued small [] [] group small-IsCoherent refl
      (λ e. absurd (ground (arith, e))) (inl refl)

-- a server that keeps the members and the patches of one group
record Stored : Type 0 where
  members : Option GroupMembers
  patches : List GroupMembersPatch

abbrev without : String → List GroupMembersPatch → List GroupMembersPatch
without n [] = []
without n (p ∷ ps) = let rest = without n ps in if p.name == n then rest else p ∷ rest

abbrev one_group : Server
one_group = record {
  State = Stored;
  reads = λ s. small;
  get_group = λ s n. ok (record { group = group; finalizers = "f" ∷ []; is_deleted = false });
  get_members = λ s n. found_or_not s.members;
  list_patches = λ s n. ok s.patches;
  update_group = λ g s. (s, true);
  create_members = λ m s. (record s { members = some m }, true);
  update_members = λ m s. (record s { members = some m }, true);
  create_patch = λ n p s. (record s { patches = p ∷ s.patches }, true);
  delete_patch = λ n p s. (record s { patches = without p s.patches }, true);
  delete_all_patches = λ n s. (record s { patches = [] }, true);
  delete_all_members = λ n s. (record s { members = none }, true);
}

one_group-IsReliable : IsReliable one_group "group" (λ s. s.members) (λ s. s.patches)
one_group-IsReliable = record {
  get = λ s. refl;
  list = λ s. refl;
  create = λ m s named missing. (refl, refl);
  update = λ m old s there. (refl, refl);
  create_patch = λ p s free. (refl, refl);
  delete_patch = λ p s. (refl, refl);
}

abbrev selected : GroupMembers
selected = record { name = ""; revision = 0; group_members = member "x" ("10.0.0.7" ∷ []) ∷ [] }

-- the members lag behind the stored patch for revision 4
abbrev interrupted : Stored
interrupted = record { members = some before; patches = patch_for 4 ∷ [] }

fetched : fetch_curr_group_members small group ≡ ok selected
unfolding fetch_curr_group_members has everoute.Labels.as_set everoute.Labels.matches_selector
    is_superset lookup insert
fetched = refl

process_endpoint_group_update-Agrees_example :
    (m : GroupMembers) × ((process_endpoint_group_update one_group group interrupted).1 ≡ none)
    × ((process_endpoint_group_update one_group group interrupted).0.members ≡ some m)
    × Agrees m selected
    × (4 ≤ m.revision)
process_endpoint_group_update-Agrees_example =
    process_endpoint_group_update-Agrees one_group group (λ s. s.members) (λ s. s.patches) selected
      interrupted one_group-IsReliable fetched (ground arith)
