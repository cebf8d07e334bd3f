-- ===== src/Tests/SyncTests.antt =====
-- Rule lists at a concrete datapath, and port ranges at the webhook.
use everoute.Common.{
  ◌≡◌, ◌≢◌, refl, String, Bool, true, false, ◌⊎◌, inl, inr, Option, none, some, List, [], ◌∷◌, ok,
  arith, string_eq, nat_eq, ◌==◌, Bool-cases, sym,
}
use everoute.Common.Dict.{Dict, lookup, insert, delete, lookup-insert, lookup-delete}
use everoute.Api.{SecurityPolicyPort, protocol_tcp, port_type_number}
use everoute.Text.{split, is_number, decimal}
use everoute.Ports.{RulePort}
use everoute.Ports.Flatten.{flatten_ports, is_pair}
use everoute.Cache.Rule.{PolicyRule}
use everoute.Reconciler.Sync.{Datapath, to_rule_map, sync_policy_rules_until_success}
use everoute.Reconciler.Sync.Exact.{Kept}
use everoute.Reconciler.Sync.Retries.{Synced, rule_of, sync_policy_rules_until_success-Synced}
use everoute.Webhook.{validate_port_range, validate_ports}
use everoute.Webhook.PortRanges.{flatten_ports-accepted}

-- The calls of a list of answers fail, the later ones succeed.
abbrev Flaky : Type 0
Flaky = List Bool × Dict String PolicyRule

abbrev flaky_add : PolicyRule → Flaky → Flaky × Bool
flaky_add r ([], m) = (([], insert r.name r m), true)
flaky_add r (true ∷ answers, m) = ((answers, insert r.name r m), true)
flaky_add r (false ∷ answers, m) = ((answers, m), false)

abbrev flaky_remove : String → Flaky → Flaky × Bool
flaky_remove n ([], m) = (([], delete n m), true)
flaky_remove n (true ∷ answers, m) = ((answers, delete n m), true)
flaky_remove n (false ∷ answers, m) = ((answers, m), false)

abbrev flaky_holds : Flaky → String → Option PolicyRule
flaky_holds (answers, m) n = lookup n m

inserted :
    (r : PolicyRule) (m : Dict String PolicyRule) → lookup r.name (insert r.name r m) ≡ some r
inserted r m = ground (arith, lookup-insert r.name r.name r m, string_eq.beq_iff r.name r.name)

inserted_other :
    (r : PolicyRule) (m : Dict String PolicyRule) (n : String)
    → n ≢ r.name
    → lookup n (insert r.name r m) ≡ lookup n m
inserted_other r m n ne = elim (Bool-cases (r.name == n)) [
  | inl same ↦ absurd (ne (sym ((string_eq.beq_iff r.name n).0 same)))
  | inr other ↦ ground (arith, lookup-insert r.name n r m, other)
]

deleted : (n : String) (m : Dict String PolicyRule) → lookup n (delete n m) ≡ none
deleted n m = ground (arith, lookup-delete n n m, string_eq.beq_iff n n)

deleted_other :
    (n : String) (m : Dict String PolicyRule) (k : String)
    → k ≢ n
    → lookup k (delete n m) ≡ lookup k m
deleted_other n m k ne = elim (Bool-cases (n == k)) [
  | inl same ↦ absurd (ne (sym ((string_eq.beq_iff n k).0 same)))
  | inr other ↦ ground (arith, lookup-delete n k m, other)
]

added_lem :
    (r : PolicyRule) (s : Flaky)
    → (flaky_add r s).1 ≡ true
    → flaky_holds (flaky_add r s).0 r.name ≡ some r
added_lem r ([], m) h = inserted r m
added_lem r (true ∷ answers, m) h = inserted r m
added_lem r (false ∷ answers, m) h = absurd (ground arith)

add_failed_lem :
    (r : PolicyRule) (s : Flaky)
    → (flaky_holds (flaky_add r s).0 r.name ≡ some r)
      ⊎ (flaky_holds (flaky_add r s).0 r.name ≡ flaky_holds s r.name)
add_failed_lem r ([], m) = inl (inserted r m)
add_failed_lem r (true ∷ answers, m) = inl (inserted r m)
add_failed_lem r (false ∷ answers, m) = inr refl

add_other_lem :
    (r : PolicyRule) (s : Flaky) (n : String)
    → n ≢ r.name
    → flaky_holds (flaky_add r s).0 n ≡ flaky_holds s n
add_other_lem r ([], m) n ne = inserted_other r m n ne
add_other_lem r (true ∷ answers, m) n ne = inserted_other r m n ne
add_other_lem r (false ∷ answers, m) n ne = refl

removed_lem :
    (n : String) (s : Flaky)
    → (flaky_remove n s).1 ≡ true
    → flaky_holds (flaky_remove n s).0 n ≡ none
removed_lem n ([], m) h = deleted n m
removed_lem n (true ∷ answers, m) h = deleted n m
removed_lem n (false ∷ answers, m) h = absurd (ground arith)

remove_failed_lem :
    (n : String) (s : Flaky)
    → (flaky_holds (flaky_remove n s).0 n ≡ none)
      ⊎ (flaky_holds (flaky_remove n s).0 n ≡ flaky_holds s n)
remove_failed_lem n ([], m) = inl (deleted n m)
remove_failed_lem n (true ∷ answers, m) = inl (deleted n m)
remove_failed_lem n (false ∷ answers, m) = inr refl

remove_other_lem :
    (n : String) (s : Flaky) (k : String)
    → k ≢ n
    → flaky_holds (flaky_remove n s).0 k ≡ flaky_holds s k
remove_other_lem n ([], m) k ne = deleted_other n m k ne
remove_other_lem n (true ∷ answers, m) k ne = deleted_other n m k ne
remove_other_lem n (false ∷ answers, m) k ne = refl

abbrev flaky : Datapath
flaky = record {
  State = Flaky;
  holds = flaky_holds;
  add_rule = flaky_add;
  remove_rule = flaky_remove;
  added = added_lem;
  add_failed = add_failed_lem;
  add_other = add_other_lem;
  removed = removed_lem;
  remove_failed = remove_failed_lem;
  remove_other = remove_other_lem;
}

abbrev rule_named : String → PolicyRule
rule_named name = record {
  name = name;
  action = "Allow";
  direction = "Ingress";
  rule_type = "NormalRule";
  tier = "tier1";
  enforcement_mode = "work";
  src_ip_addr = "10.0.0.1/32";
  dst_ip_addr = "";
  ip_protocol = "TCP";
  src_port = 0;
  dst_port = 80;
  src_port_mask = 0;
  dst_port_mask = 0xffff;
}

-- the first call fails
abbrev start : Flaky
start = (false ∷ [], ("a", rule_named "a") ∷ [])

start-Kept :
    Kept
      (rule_of (rule_named "a" ∷ []) "a")
      (rule_of (rule_named "b" ∷ []) "a")
      (flaky_holds start "a")
unfolding to_rule_map lookup insert
start-Kept r o n = absurd (ground (arith, n))

sync_policy_rules_until_success-Synced_example :
    Synced
      (rule_of (rule_named "a" ∷ []) "a")
      (rule_of (rule_named "b" ∷ []) "a")
      (flaky_holds start "a")
      (
        flaky_holds
            (sync_policy_rules_until_success flaky 1
              (rule_named "a" ∷ [])
              (rule_named "b" ∷ [])
              start).0
            "a",
        (sync_policy_rules_until_success flaky 1
            (rule_named "a" ∷ [])
            (rule_named "b" ∷ [])
            start).1,
      )
sync_policy_rules_until_success-Synced_example =
    sync_policy_rules_until_success-Synced flaky 1 (rule_named "a" ∷ []) (rule_named "b" ∷ []) start
      "a" start-Kept

range_accepted : validate_port_range "22,80-82" ≡ none
unfolding validate_port_range is_number is_pair split decimal
range_accepted = refl

abbrev ssh : SecurityPolicyPort
ssh = record { protocol = protocol_tcp; port_range = "22,80-82"; type = port_type_number }

ssh_accepted : validate_ports (ssh ∷ []) ≡ none
unfolding validate_ports is_number is_pair split decimal
ssh_accepted = refl

flatten_ports-accepted_example : (rules : List RulePort) × (flatten_ports (ssh ∷ []) ≡ ok rules)
flatten_ports-accepted_example = flatten_ports-accepted (ssh ∷ []) ssh_accepted
