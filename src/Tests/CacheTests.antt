-- ===== src/Tests/CacheTests.antt =====
-- The caches at concrete inputs (pkg/agent/controller/policy/cache).
use everoute.Common.{
  err, inl, inr, ◌≡◌, refl, String, false, none, some, [], ◌∷◌, any, arith, ok, All, fold, nat_eq,
  string_eq,
}
use everoute.Common.Dict.{lookup, insert, delete, delete_if, values, lookup-nil}
use everoute.Common.Set.{has, add, insert_all, remove, delete_all}
use everoute.Api.{GroupMember, GroupMembers, GroupMembersPatch}
use everoute.Ports.{zero_port}
use everoute.Cache.{
  IpBlockItem, Blocks, Items, revision_lt, next_revision, add_member, new_ip_block_item,
  append_ip_block_ports,
}
use everoute.Cache.Members.{present, serves, agents_at, serves_at}
use everoute.Cache.Group.{
  GroupCache, GroupPatch, GroupMembership, new_group_cache, add_patch, is_old, patches_of,
  add_group_membership, membership_of, next_patch, apply_patch, list_group_ip_blocks,
}
use everoute.Cache.Group.Current.{IsCurrent}
use everoute.Cache.Group.Steps.{
  Reachable, initial, after, adds_group, adds_patch, AllDistinct, Reachable-IsCurrent,
  apply_patch-Reachable, apply_patch-recreated,
}
use everoute.Cache.Group.{unexpected_revision, del_group_membership, to_group_patch}
use everoute.Cache.Group.Progress.{Applied, list_group_ip_blocks-members}
use everoute.Cache.Rule.{
  CompleteRule, RulePatch, Env, applies, apply_count_map, generate_rule_list, del_blocks,
  add_blocks, del_block, add_block, reduce, extend,
}
use everoute.Cache.Rule.{apply_patch as apply_rule_patch}
use everoute.Cache.Rule.Count.{NoNil, add_at, del_at, apply_count_map-at}
use everoute.Cache.Rule.Patch.{apply_patch-once}
use everoute.Cache.Rule.Safe.{IsPatch, IsSafe}
use everoute.Cache.Rule.Generate.{Sound, generate_rule_list-Sound}

abbrev member_of : String → String → String → GroupMember
member_of vm agent ip = record {
  endpoint_reference = record { external_id_name = "vm"; external_id_value = vm };
  endpoint_agent = agent ∷ [];
  ips = ip ∷ [];
  ports = [];
}

abbrev group : GroupMembers
group = record { name = "g"; revision = 1; group_members = member_of "a" "node1" "10.0.0.1" ∷ [] }

abbrev move : GroupMembersPatch
move = record {
  name = "g";
  applied_to_group_members = record { name = "g"; revision = 1 };
  added_group_members = member_of "b" "node2" "10.0.0.2" ∷ [];
  updated_group_members = [];
  removed_group_members = member_of "a" "node1" "10.0.0.1" ∷ [];
}

abbrev known : GroupCache
known = add_group_membership new_group_cache group

abbrev waiting : GroupCache
waiting = add_patch known move

abbrev next : GroupPatch
next = to_group_patch "g" (membership_of group) move

waiting-next : next_patch waiting "g" ≡ some next
unfolding next_patch patches_of lookup add_patch add_group_membership insert is_old revision_lt
    new_group_cache delete_if
waiting-next = refl

waiting-Reachable : Reachable waiting
waiting-Reachable =
    after (after initial (adds_group new_group_cache group)) (adds_patch known move (omega arith))

Reachable-IsCurrent_example : IsCurrent waiting × AllDistinct waiting
Reachable-IsCurrent_example = Reachable-IsCurrent waiting-Reachable

apply_patch-Reachable_example :
    (m : GroupMembership) × (source : GroupMembersPatch) × (cache' : GroupCache) × (lookup "g"
        waiting.members
      ≡ some m)
    × (lookup m.revision (patches_of waiting "g") ≡ some source)
    × (apply_patch waiting next ≡ ok cache')
    × Applied waiting cache' "g" m source
apply_patch-Reachable_example =
    apply_patch-Reachable waiting "g" next waiting-Reachable waiting-next

apply_patch-recreated_example :
    apply_patch
      (add_group_membership (del_group_membership waiting "g") (record group { revision = 5 }))
      next
    ≡ err (unexpected_revision next.revision 5)
unfolding to_group_patch
apply_patch-recreated_example =
    apply_patch-recreated waiting "g" next (record group { revision = 5 }) waiting-next refl
      (λ e. absurd (ground arith))

abbrev group_items : Items
group_items = fold add_member [] (member_of "a" "node1" "10.0.0.1" ∷ [])

list_group_ip_blocks-known : list_group_ip_blocks known "g" ≡ some (1, group_items)
unfolding list_group_ip_blocks lookup add_group_membership insert new_group_cache
list_group_ip_blocks-known = refl

list_group_ip_blocks-members_example :
    (m : GroupMembership) × (lookup "g" known.members ≡ some m)
    × (1 ≡ m.revision)
    × ((cidr : String) → present cidr group_items ≡ any (serves cidr) (values m.endpoints))
    × ((cidr agent : String)
        → has agent (agents_at cidr group_items) ≡ any (serves_at cidr agent) (values m.endpoints))
list_group_ip_blocks-members_example =
    list_group_ip_blocks-members known "g" 1 group_items list_group_ip_blocks-known

abbrev item_at : String → IpBlockItem
item_at agent = record new_ip_block_item { agent_ref = agent ∷ [] }

abbrev blocks : Blocks
blocks = ("10.0.0.1/32", some (item_at "node1")) ∷ []

blocks-NoNil : NoNil blocks
unfolding lookup
blocks-NoNil ip = ground arith

apply_count_map-at_example :
    (result : Blocks) × (apply_count_map blocks
        (("10.0.0.2/32", some (item_at "node2")) ∷ [])
        blocks
      ≡ some result)
    × NoNil result
    × ((ip : String)
        → lookup ip result
          ≡ add_at
              (del_at (lookup ip blocks) (lookup ip blocks))
              (lookup ip (("10.0.0.2/32", some (item_at "node2")) ∷ [])))
apply_count_map-at_example =
    apply_count_map-at blocks (("10.0.0.2/32", some (item_at "node2")) ∷ []) blocks blocks-NoNil
      (lookup-nil "10.0.0.2/32", tt) (lookup-nil "10.0.0.1/32", tt)

blocks-lookup : lookup "10.0.0.1/32" blocks ≡ some (some (item_at "node1"))
unfolding lookup
blocks-lookup = refl

abbrev allow : CompleteRule
allow = record {
  rule_id = "ns/p/normal/ingress.r";
  tier = "tier1";
  enforcement_mode = "work";
  action = "Allow";
  direction = "Ingress";
  symmetric_mode = false;
  default_policy_rule = false;
  src_groups = ("g", 1) ∷ [];
  dst_groups = [];
  src_ip_blocks = blocks;
  dst_ip_blocks = ("", none) ∷ [];
  ports = zero_port ∷ [];
}

abbrev swap : RulePatch
swap = record {
  group_name = "g";
  revision = 1;
  add = ("10.0.0.2/32", some (item_at "node2")) ∷ [];
  del = ("10.0.0.1/32", some (item_at "node1")) ∷ [];
}

abbrev swapped : CompleteRule
swapped = record allow {
  src_groups = ("g", 2) ∷ [];
  src_ip_blocks = ("10.0.0.2/32", some (item_at "node2")) ∷ [];
}

swap_applied : apply_rule_patch allow swap ≡ some swapped
unfolding apply_rule_patch applies apply_count_map del_blocks add_blocks del_block add_block reduce
    extend lookup insert delete delete_all remove insert_all append_ip_block_ports next_revision add
    has
swap_applied = refl

apply_patch-once_example :
    (applies swapped.src_groups swap ≡ false)
    × (applies swapped.dst_groups swap ≡ false)
    × (apply_rule_patch swapped swap ≡ some swapped)
apply_patch-once_example = apply_patch-once allow swapped swap (omega arith) swap_applied

abbrev env : Env
env = record { digest = λ r. 1 ∷ 2 ∷ 3 ∷ []; current_agent = "node1" }

generate_rule_list-Sound_example :
    All (Sound env allow) (generate_rule_list env allow blocks allow.dst_ip_blocks allow.ports)
generate_rule_list-Sound_example =
    generate_rule_list-Sound env allow blocks allow.dst_ip_blocks allow.ports

allow-IsSafe : IsSafe allow
allow-IsSafe = record { src = inr blocks-NoNil; dst = inl refl }

swap-IsPatch : IsPatch swap
swap-IsPatch = record { add = (lookup-nil "10.0.0.2/32", tt); del = (lookup-nil "10.0.0.1/32", tt) }
