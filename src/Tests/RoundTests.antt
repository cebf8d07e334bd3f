-- ===== src/Tests/RoundTests.antt =====
-- Rounds of the agent's reconcilers on a datapath whose calls succeed.
use everoute.Cache.Rule.Count.{NoNil}
use everoute.Common.{
  ◌≡◌, ◌≢◌, refl, nat_eq, sym, String, true, false, Option, none, some, List, [], ◌∷◌, inl, inr,
  ◌==◌, string_eq, arith, All, ok, gather, Bool-cases, ◌<◌,
}
use everoute.Common.Dict.{
  Dict, lookup, insert, delete, delete_if, is_some, lookup-insert, lookup-delete,
}
use everoute.Api.{GroupMembersPatch, reference_eq}
use everoute.Ports.{zero_port}
use everoute.Cache.{new_ip_block_item, IpBlockItem, revision_lt}
use everoute.Cache.Group.{
  GroupCache, patch_len, next_patch, patches_of, add_patch, add_group_membership, new_group_cache,
  is_old,
}
use everoute.Cache.Group.Steps.{AllDistinct}
use everoute.Cache.Rule.{CompleteRule, PolicyRule, Env, list_rules}
use everoute.Cache.Rule.Safe.{IsSafe}
use everoute.Cache.{Items, Blocks, get_ip_cidr, next_revision}
use everoute.Cache.Members.{present}
use everoute.Cache.Group.{GroupPatch, apply_patch, list_group_ip_blocks}
use everoute.Cache.Rule.{apply_count_map}
use everoute.Api.{EndpointReference}
use everoute.Reconciler.Rounds.{rule_patch, to_blocks}
use everoute.Reconciler.Rounds.Shared.{member, removal, two, shared_address_lost}
use everoute.Reconciler.Sync.{Datapath, to_rule_map}
use everoute.Reconciler.Rounds.{rounds, reconcile_policy, finish}
use everoute.Reconciler.Rounds.Policy.{IsReliable, Leaves, reconcile_policy-Leaves}
use everoute.Tests.NetworkPolicyTests.{stale}
use everoute.Reconciler.Rounds.Drain.{rounds-drain}
use everoute.Reconciler.Rounds.Watch.{
  Watched, nothing_watched, patch_created, members_created, Reached, initially, after,
  creates_members, creates_patch,
}
use everoute.Reconciler.Rounds.Watch.Pending.{Reached-Queued}
use everoute.Common.Set.{has}
use everoute.GlobalPolicy.{GlobalPolicy, new_global_policy_rule_pair, reconcile_global_policy}
use everoute.GlobalPolicy.Idle.{reconcile_global_policy-gives_up}

inserted_other :
    (r : PolicyRule) (m : Dict String PolicyRule) (n : String)
    → n ≢ r.name
    → lookup n (insert r.name r m) ≡ lookup n m
inserted_other r m n ne = elim (Bool-cases (r.name == n)) [
  | inl same ↦ absurd (ne (sym ((string_eq.beq_iff r.name n).0 same)))
  | inr other ↦ ground (arith, lookup-insert r.name n r m, other)
]

deleted_other :
    (n : String) (m : Dict String PolicyRule) (k : String)
    → k ≢ n
    → lookup k (delete n m) ≡ lookup k m
deleted_other n m k ne = elim (Bool-cases (n == k)) [
  | inl same ↦ absurd (ne (sym ((string_eq.beq_iff n k).0 same)))
  | inr other ↦ ground (arith, lookup-delete n k m, other)
]

put_there :
    (r : PolicyRule) (m : Dict String PolicyRule) → lookup r.name (insert r.name r m) ≡ some r
put_there r m = ground (arith, lookup-insert r.name r.name r m, string_eq.beq_iff r.name r.name)

taken : (n : String) (m : Dict String PolicyRule) → lookup n (delete n m) ≡ none
taken n m = ground (arith, lookup-delete n n m, string_eq.beq_iff n n)

abbrev obedient : Datapath
obedient = record {
  State = Dict String PolicyRule;
  holds = λ s n. lookup n s;
  add_rule = λ r s. (insert r.name r s, true);
  remove_rule = λ n s. (delete n s, true);
  added = λ r s h. put_there r s;
  add_failed = λ r s. inl (put_there r s);
  add_other = inserted_other;
  removed = λ n s h. taken n s;
  remove_failed = λ n s. inl (taken n s);
  remove_other = λ n s m ne. deleted_other n s m ne;
}

abbrev env : Env
env = record { digest = λ r. 7 ∷ []; current_agent = "node1" }

abbrev item : Option IpBlockItem
item = some (record new_ip_block_item { agent_ref = "node1" ∷ [] })

abbrev allow : CompleteRule
allow = record {
  rule_id = "ns/p/normal/ingress.r";
  tier = "tier1";
  enforcement_mode = "work";
  action = "Allow";
  direction = "Ingress";
  symmetric_mode = false;
  default_policy_rule = false;
  src_groups = ("g", 1) ∷ [];
  dst_groups = [];
  src_ip_blocks = ("10.0.0.1/32", item) ∷ [];
  dst_ip_blocks = ("", none) ∷ [];
  ports = zero_port ∷ [];
}

blocks-NoNil : NoNil allow.src_ip_blocks
unfolding lookup
blocks-NoNil ip h = absurd (ground (arith, h))

allow-IsSafe : IsSafe allow
allow-IsSafe = record { src = inr blocks-NoNil; dst = inl refl }

abbrev patch_one : GroupMembersPatch
patch_one = record {
  name = "patch-g-revision1";
  applied_to_group_members = record { name = "g"; revision = 1 };
  added_group_members =
      record {
        endpoint_reference = record { external_id_name = "id"; external_id_value = "x" };
        endpoint_agent = "node1" ∷ [];
        ips = "10.0.0.2" ∷ [];
        ports = [];
      }
      ∷ [];
  updated_group_members = [];
  removed_group_members = [];
}

abbrev groups : GroupCache
groups = record {
  patches = ("g", (1, patch_one) ∷ []) ∷ [];
  members = ("g", record { name = "g"; revision = 1; endpoints = [] }) ∷ [];
}

groups-AllDistinct : AllDistinct groups
unfolding patches_of lookup
groups-AllDistinct g = elim (Bool-cases ("g" == g)) [
  | inl same ↦ rw same (refl, tt)
  | inr other ↦ rw other tt
]

one_patch : patch_len groups "g" < 2
unfolding patch_len lookup
one_patch = ground arith

rounds-drain_example :
    (rules' : List CompleteRule) × (groups' : GroupCache) × (s' : Dict String PolicyRule) × (rounds
        env obedient 3 2 "g"
        (allow ∷ [])
        groups
        []
      ≡ ok (rules', groups', s'))
    × (next_patch groups' "g" ≡ none)
    × All IsSafe rules'
rounds-drain_example =
    rounds-drain env obedient 3 2 "g" (allow ∷ []) groups [] groups-AllDistinct (allow-IsSafe, tt)
      one_patch

abbrev drop_all : GlobalPolicy
drop_all = record { default_action = "Drop"; global_policy_enforcement_mode = "work" }

not_done : false ≡ true → ⊥
not_done h = ground (arith, h)

-- a datapath that refuses every call
abbrev refusing : Datapath
refusing = record {
  State = Dict String PolicyRule;
  holds = λ s n. lookup n s;
  add_rule = λ r s. (s, false);
  remove_rule = λ n s. (s, false);
  added = λ r s h. absurd (not_done h);
  add_failed = λ r s. inr refl;
  add_other = λ r s n ne. refl;
  removed = λ n s h. absurd (not_done h);
  remove_failed = λ n s. inr refl;
  remove_other = λ n s m ne. refl;
}

reconcile_global_policy-gives_up_example :
    reconcile_global_policy env refusing 3 {E = String}
      (new_global_policy_rule_pair env drop_all)
      (ok (drop_all ∷ []))
      (reconcile_global_policy env refusing 3 {E = String} [] (ok (drop_all ∷ [])) []).1
    ≡ (
      new_global_policy_rule_pair env drop_all,
      (reconcile_global_policy env refusing 3 {E = String} [] (ok (drop_all ∷ [])) []).1,
      true,
    )
unfolding reconcile_global_policy
reconcile_global_policy-gives_up_example =
    reconcile_global_policy-gives_up String env refusing 3 drop_all []
      (new_global_policy_rule_pair env drop_all) [] (λ name. refl)

-- the rule of the policy after its group has moved to another address
abbrev moved : CompleteRule
moved = record allow { src_ip_blocks = ("10.0.0.9/32", item) ∷ [] }

-- the datapath with the rules of the cache
abbrev with_allow : Dict String PolicyRule
with_allow = to_rule_map (gather (list_rules env) (allow ∷ []))

obedient-IsReliable : IsReliable obedient
obedient-IsReliable = record { adds = λ r s. refl; removes = λ n s. refl }

reconcile_policy-Leaves_example :
    Leaves obedient env with_allow
      (allow ∷ [])
      (moved ∷ [], finish)
      (reconcile_policy env obedient 3 {E = String}
        (λ policy. ok (moved ∷ []))
        (ok stale)
        (allow ∷ [])
        with_allow)
reconcile_policy-Leaves_example =
    reconcile_policy-Leaves obedient obedient-IsReliable env 3 (λ policy. ok (moved ∷ []))
      (ok stale) (allow ∷ []) with_allow (λ name r is. is) (refl, tt)

-- a group arrives, and a patch for it
abbrev with_patch : Watched
with_patch =
    patch_created (some patch_one)
      (members_created (record { name = "g"; revision = 1; group_members = [] }) nothing_watched)

with_patch-Reached : Reached env obedient 3 with_patch
with_patch-Reached =
    after
      (after initially
        (creates_members (record { name = "g"; revision = 1; group_members = [] }) nothing_watched))
      (creates_patch (some patch_one) _)

with_patch_next : is_some (next_patch with_patch.groups "g") ≡ true
unfolding patch_created members_created add_patch add_group_membership next_patch new_group_cache
    patches_of is_old revision_lt lookup insert delete_if
with_patch_next = refl

Reached-Queued_example : has "g" with_patch.queue ≡ true
Reached-Queued_example =
    Reached-Queued env obedient 3 with_patch with_patch-Reached "g" with_patch_next

abbrev first_ref : EndpointReference
first_ref = record { external_id_name = "id"; external_id_value = "x" }

abbrev second_ref : EndpointReference
second_ref = record { external_id_name = "id"; external_id_value = "y" }

-- two members behind one address, of which the next patch removes the second
abbrev shared : GroupCache
shared = record {
  patches = ("g", (1, removal "g" 1 (member second_ref "node1" "10.0.0.1" [])) ∷ []) ∷ [];
  members =
      (
        "g",
        two "g" 1 (member first_ref "node1" "10.0.0.1" [])
            (member second_ref "node1" "10.0.0.1" []),
      )
      ∷ [];
}

shared-stored :
    lookup 1 (patches_of shared "g")
    ≡ some (removal "g" 1 (member second_ref "node1" "10.0.0.1" []))
unfolding patches_of lookup
shared-stored = refl

shared-known :
    lookup "g" shared.members
    ≡ some (
        two "g" 1
          (member first_ref "node1" "10.0.0.1" [])
          (member second_ref "node1" "10.0.0.1" []))
unfolding lookup
shared-known = refl

shared_address_lost_example :
    (patch : GroupPatch) × (items : Items) × (result : Blocks) × (c' : GroupCache)
    × (items' : Items) × (next_patch shared "g" ≡ some patch)
    × (list_group_ip_blocks shared "g" ≡ some (1, items))
    × (apply_count_map (to_blocks items) (rule_patch patch).add (rule_patch patch).del
        ≡ some result)
    × (lookup (get_ip_cidr "10.0.0.1") result ≡ none)
    × (apply_patch shared patch ≡ ok c')
    × (list_group_ip_blocks c' "g" ≡ some (next_revision 1, items'))
    × (present (get_ip_cidr "10.0.0.1") items' ≡ true)
shared_address_lost_example =
    shared_address_lost shared "g" 1 first_ref second_ref "node1" "10.0.0.1" [] [] refl shared-known
      shared-stored
