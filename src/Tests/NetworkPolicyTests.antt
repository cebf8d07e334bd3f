-- ===== src/Tests/NetworkPolicyTests.antt =====
-- The theorems on network policies, on a server that keeps the SecurityPolicies in a list.
use mathlib.Core.Option
use everoute.Common.{
  ◌≡◌, ◌≢◌, refl, ap, ◌∙◌, sym, String, Bool, true, ◌&&◌, Option, none, some, List, [], ◌∷◌, Result,
  ok, err, ◌==◌, string_eq, nat_eq, if◌then◌else◌, arith, ◌↔◌, Bool-cases, inl, inr,
}
use everoute.Text.{digits_text}
use everoute.Api.{NamespacedName, SecurityPolicy, port_type_number, port_type_name, Rule}
use everoute.GroupController.Select.{ReadError, not_found, failed}
use everoute.NetworkPolicy.{
  IntOrString, int, str, NetworkPolicy, PolicyServer, get_security_policy, empty_network_policy,
  security_policy_name, returns, add_security_policy, translated_spec, network_policy_reconcile,
}
use everoute.NetworkPolicy.Synced.{
  found_or_not, key_of, request_of, policy_key, spec_of, IsReliable,
  network_policy_reconcile-stores, network_policy_reconcile-failed_read,
}
use everoute.NetworkPolicy.Names.{add_security_policy-inverse}

abbrev port_text : IntOrString → String
port_text (int n) = digits_text 20 n ""
port_text (str s) = s

abbrev has_key : NamespacedName → SecurityPolicy → Bool
has_key key p = p.name == key.name && p.namespace == key.namespace

has_key-key_of : (p : SecurityPolicy) → has_key (key_of p) p ≡ true
has_key-key_of p =
    ground (arith, string_eq.beq_iff p.name p.name, string_eq.beq_iff p.namespace p.namespace)

key-has_key : (key : NamespacedName) (p : SecurityPolicy) → has_key key p ≡ true → key_of p ≡ key
key-has_key key p h =
    ground
      (arith, h, string_eq.beq_iff p.name key.name, string_eq.beq_iff p.namespace key.namespace)

abbrev first : List SecurityPolicy → NamespacedName → Option SecurityPolicy
first [] key = none
first (p ∷ ps) key = let rest = first ps key in if has_key key p then some p else rest

abbrev without : NamespacedName → List SecurityPolicy → List SecurityPolicy
without key [] = []
without key (p ∷ ps) = let rest = without key ps in if has_key key p then rest else p ∷ rest

abbrev delete_error : Option SecurityPolicy → Option ReadError
delete_error none = some not_found
delete_error (some p) = none

first-key :
    (ps : List SecurityPolicy) (key : NamespacedName) (p : SecurityPolicy)
    → first ps key ≡ some p
    → key_of p ≡ key
first-key [] key p h = ground (arith, h)
first-key (q ∷ ps) key p h = elim (Bool-cases (has_key key q)) [
  | inl same ↦ ground (arith, h, same, key-has_key key q same)
  | inr other ↦ first-key ps key p (ground (arith, h, other))
]

first-without :
    (ps : List SecurityPolicy) (key : NamespacedName) → first (without key ps) key ≡ none
first-without [] key = refl
first-without (p ∷ ps) key = ground (arith, first-without ps key)

first-new :
    (key : NamespacedName) (p : SecurityPolicy) (ps : List SecurityPolicy)
    → key_of p ≡ key
    → first (p ∷ ps) key ≡ some p
first-new key p ps h = ap (first (p ∷ ps)) (sym h) ∙ ground (arith, has_key-key_of p)

first-other :
    (key : NamespacedName) (p : SecurityPolicy) (ps : List SecurityPolicy)
    → key ≢ key_of p
    → first (p ∷ ps) key ≡ first ps key
first-other key p ps d = elim (Bool-cases (has_key key p)) [
  | inl same ↦ elim (d (sym (key-has_key key p same))) [ ]
  | inr other ↦ ground (arith, other)
]

without-other :
    (ps : List SecurityPolicy) (gone key : NamespacedName)
    → key ≢ gone
    → first (without gone ps) key ≡ first ps key
without-other [] gone key d = refl
without-other (p ∷ ps) gone key d = elim (Bool-cases (has_key gone p)) [
  | inl same ↦
      let skipped = first-other key p ps (λ h. d (h ∙ key-has_key gone p same)) in
      ground (arith, same, skipped, without-other ps gone key d)
  | inr other ↦ ground (arith, other, without-other ps gone key d)
]

abbrev listed : (NamespacedName → Result ReadError NetworkPolicy) → PolicyServer
listed answer = record {
  State = List SecurityPolicy;
  read_network_policy = λ s key. answer key;
  read_security_policy = λ s key. found_or_not (first s key);
  create = λ p s. (p ∷ s, none);
  update = λ p s. (p ∷ s, none);
  delete = λ key s. (without key s, delete_error (first s key));
}

listed-IsReliable :
    (answer : NamespacedName → Result ReadError NetworkPolicy)
    → ((key : NamespacedName) (policy : NetworkPolicy)
        → answer key ≡ ok policy
        → request_of policy ≡ key)
    → IsReliable (listed answer) first
listed-IsReliable answer h = record {
  read = λ s key. refl;
  read_key = λ s. h;
  stored_key = first-key;
  create = λ s p e. (refl, first-new (key_of p) p s refl);
  update = λ s key p old k e. (refl, first-new key p s k);
  delete_found = λ s key old e. (ap delete_error e, first-without s key);
  delete_missing = λ s key e. (ap delete_error e, first-without s key);
  others_create = λ s p key d. first-other key p s d;
  others_update = λ s p key d. first-other key p s d;
  others_delete = λ s gone key d. without-other s gone key d;
}

abbrev web : NamespacedName
web = record { name = "web"; namespace = "default" }

-- the pods may be reached at TCP port 80 and at the TCP port named metrics
abbrev web_policy : NamespacedName → NetworkPolicy
web_policy key = record {
  name = key.name;
  namespace = key.namespace;
  pod_selector = record { match_labels = ("app", "web") ∷ []; match_expressions = [] };
  policy_types = "Ingress" ∷ [];
  ingress =
      record {
        ports =
            record { protocol = some "TCP"; port = some (int 80) }
            ∷ record { protocol = some "TCP"; port = some (str "metrics") }
            ∷ [];
        peers = [];
      }
      ∷ [];
  egress = [];
}

abbrev lists_web : PolicyServer
lists_web = listed (λ key. ok (web_policy key))

lists_web-IsReliable : IsReliable lists_web first
lists_web-IsReliable =
    listed-IsReliable (λ key. ok (web_policy key)) (λ key policy h. ground (arith, h))

abbrev web_rules : List Rule
web_rules =
    record {
      name = "ingress0";
      ports =
          record { protocol = "TCP"; port_range = "80"; type = port_type_number }
          ∷ record { protocol = "TCP"; port_range = "metrics"; type = port_type_name }
          ∷ [];
      from = [];
      to = [];
    }
    ∷ []

web-translated :
    get_security_policy port_text (web_policy web)
    ≡ some (record {
      name = "np-web";
      namespace = "default";
      spec = translated_spec port_text (web_policy web) web_rules [];
    })
unfolding get_security_policy digits_text
web-translated = refl

-- a stale policy of the request, without rules
abbrev pub stale : SecurityPolicy
stale = record {
  name = "np-web";
  namespace = "default";
  spec = translated_spec port_text empty_network_policy [] [];
}

abbrev db : NamespacedName
db = record { name = "np-db"; namespace = "default" }

abbrev db_policy : SecurityPolicy
db_policy = record stale { name = "np-db" }

db≢web : db ≢ policy_key web
db≢web h = ground (arith, (string_eq.beq_iff "np-db" "np-web").1 (ap (λ k. k.name) h))

network_policy_reconcile-stores_example :
    (((network_policy_reconcile lists_web port_text web (stale ∷ db_policy ∷ [])).1 ≡ returns none)
      × (Option.map spec_of (
            first
              (network_policy_reconcile lists_web port_text web (stale ∷ db_policy ∷ [])).0
              (policy_key web))
          ≡ some (translated_spec port_text (web_policy web) web_rules [])))
    × (first (network_policy_reconcile lists_web port_text web (stale ∷ db_policy ∷ [])).0 db
        ≡ first (stale ∷ db_policy ∷ []) db)
network_policy_reconcile-stores_example =
    network_policy_reconcile-stores lists_web first lists_web-IsReliable port_text web db
      (stale ∷ db_policy ∷ []) (some (web_policy web))
      (some (translated_spec port_text (web_policy web) web_rules [])) refl
      (ap (Option.map (λ p. some (spec_of p))) web-translated) db≢web

abbrev times_out : PolicyServer
times_out = listed (λ key. err (failed "timeout"))

times_out-IsReliable : IsReliable times_out first
times_out-IsReliable =
    listed-IsReliable (λ key. err (failed "timeout")) (λ key policy h. ground (arith, h))

-- the policy of the request as a reconcile leaves it
abbrev synced : SecurityPolicy
synced = record stale { spec = translated_spec port_text (web_policy web) web_rules [] }

network_policy_reconcile-failed_read_example :
    ((network_policy_reconcile times_out port_text web (synced ∷ [])).1 ≡ returns none)
    × (Option.map spec_of (
          first (network_policy_reconcile times_out port_text web (synced ∷ [])).0 (policy_key web))
        ≡ some (translated_spec port_text empty_network_policy [] []))
network_policy_reconcile-failed_read_example =
    network_policy_reconcile-failed_read times_out first times_out-IsReliable port_text web
      (synced ∷ []) "timeout" synced refl refl

add_security_policy-inverse_example :
    (add_security_policy synced ≡ some web)
    ↔ (("np-web" ≡ security_policy_name "web") × (synced.namespace ≡ web.namespace))
add_security_policy-inverse_example = add_security_policy-inverse synced web
