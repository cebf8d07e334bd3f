-- ===== src/NetworkPolicy.antt =====
-- NetworkPolicyReconciler of pkg/controller/k8s/network_policy_controller.go, which keeps a
-- SecurityPolicy for each NetworkPolicy of Kubernetes. The API server is an interface, and the text
-- of an intstr.IntOrString is a parameter.
pub mod Names
pub mod Synced
use Prim.Native.String.{◌++◌ as then_text}
use Prim.Native.Char.{code}
use mathlib.Core.Option
use everoute.Common.{
  ℕ, ◌+◌, String, Bool, true, false, Option, none, some, List, [], ◌∷◌, if◌then◌else◌, Result, ok,
  err, ◌==◌, nat_eq,
}
use everoute.Api.{
  IpBlock, LabelSelector, NamespacedName, SecurityPolicy, SecurityPolicySpec, SecurityPolicyPort,
  SecurityPolicyPeer, Rule, port_type_name, port_type_number,
}
use everoute.Labels.{from_label_selector}
use everoute.Text.{digits_text}
use everoute.GlobalPolicy.{tier2}
use everoute.GroupController.Select.{ReadError, not_found, failed}

-- intstr.IntOrString
pub data IntOrString : Type 0 where
  int : ℕ → IntOrString
  str : String → IntOrString

-- networkingv1.NetworkPolicyPort, with the fields that the code reads
pub record NetworkPolicyPort : Type 0 where
  pub protocol : Option String
  pub port : Option IntOrString

-- networkingv1.NetworkPolicyPeer
pub record NetworkPolicyPeer : Type 0 where
  pub pod_selector : Option LabelSelector
  pub namespace_selector : Option LabelSelector
  pub ip_block : Option IpBlock

-- networkingv1.NetworkPolicyIngressRule and NetworkPolicyEgressRule: the peers are From or To
pub record NetworkPolicyRule : Type 0 where
  pub ports : List NetworkPolicyPort
  pub peers : List NetworkPolicyPeer

-- networkingv1.NetworkPolicy, its name and its spec
pub record NetworkPolicy : Type 0 where
  pub name : String
  pub namespace : String
  pub pod_selector : LabelSelector
  pub policy_types : List String
  pub ingress : List NetworkPolicyRule
  pub egress : List NetworkPolicyRule

-- networkingv1.NetworkPolicy{}
abbrev pub empty_network_policy : NetworkPolicy
empty_network_policy = record {
  name = "";
  namespace = "";
  pod_selector = record { match_labels = []; match_expressions = [] };
  policy_types = [];
  ingress = [];
  egress = [];
}

unfoldable pub get_security_policy_peer : List NetworkPolicyPeer → List SecurityPolicyPeer
get_security_policy_peer [] = []
get_security_policy_peer (peer ∷ peers) =
    record {
      ip_block = peer.ip_block;
      endpoint = none;
      endpoint_selector = from_label_selector peer.pod_selector;
      namespace_selector = peer.namespace_selector;
    }
    ∷ get_security_policy_peer peers

-- "np-" + name
abbrev pub security_policy_name : String → String
security_policy_name name = then_text "np-" name

module _ (port_text : IntOrString → String) where
  abbrev pub new_port : String → Option IntOrString → SecurityPolicyPort
  new_port protocol none = record { protocol = protocol; port_range = ""; type = port_type_number }
  new_port protocol (some (int n)) = record {
    protocol = protocol;
    port_range = port_text (int n);
    type = port_type_number;
  }
  new_port protocol (some (str s)) = record {
    protocol = protocol;
    port_range = port_text (str s);
    type = port_type_name;
  }

  -- `none` is the panic at a nil Protocol
  unfoldable pub get_security_policy_port :
      List NetworkPolicyPort → Option (List SecurityPolicyPort)
  get_security_policy_port [] = some []
  get_security_policy_port (port ∷ ports) =
      let rest = get_security_policy_port ports in
      elim port.protocol [
        | none ↦ none
        | some protocol ↦ Option.map (λ more. new_port protocol port.port ∷ more) rest
      ]

  -- the loop over Ingress, from an index on
  unfoldable pub translated_ingress : ℕ → List NetworkPolicyRule → Option (List Rule)
  unfolding get_security_policy_port get_security_policy_peer
  translated_ingress index [] = some []
  translated_ingress index (rule ∷ rules) =
      let rest = translated_ingress (index + 1) rules in
      elim (get_security_policy_port rule.ports) [
        | none ↦ none
        | some ports ↦
            Option.map
              (λ more.
                record {
                  name = then_text "ingress" (digits_text 20 index "");
                  ports = ports;
                  from = get_security_policy_peer rule.peers;
                  to = [];
                }
                ∷ more)
              rest
      ]

  -- the loop over Egress, from an index on
  unfoldable pub translated_egress : ℕ → List NetworkPolicyRule → Option (List Rule)
  unfolding get_security_policy_port get_security_policy_peer
  translated_egress index [] = some []
  translated_egress index (rule ∷ rules) =
      let rest = translated_egress (index + 1) rules in
      elim (get_security_policy_port rule.ports) [
        | none ↦ none
        | some ports ↦
            Option.map
              (λ more.
                record {
                  name = then_text "egress" (digits_text 20 index "");
                  ports = ports;
                  from = [];
                  to = get_security_policy_peer rule.peers;
                }
                ∷ more)
              rest
      ]

  unfoldable pub translated_spec : NetworkPolicy → List Rule → List Rule → SecurityPolicySpec
  translated_spec policy ingress egress = record {
    tier = tier2;
    security_policy_enforcement_mode = "";
    symmetric_mode = false;
    applied_to =
        record {
          endpoint = none;
          endpoint_selector = from_label_selector (some policy.pod_selector);
        }
        ∷ [];
    ingress_rules = ingress;
    egress_rules = egress;
    default_rule = "";
    policy_types = policy.policy_types;
  }

  unfoldable pub get_security_policy : NetworkPolicy → Option SecurityPolicy
  unfolding translated_ingress translated_egress translated_spec
  get_security_policy policy = elim (translated_ingress 0 policy.ingress) [
    | none ↦ none
    | some ingress ↦
        Option.map
          (λ egress. record {
            name = security_policy_name policy.name;
            namespace = policy.namespace;
            spec = translated_spec policy ingress egress;
          })
          (translated_egress 0 policy.egress)
  ]

-- strings.TrimPrefix, and `none` where strings.HasPrefix is false
unfoldable pub trim_prefix : String → String → Option String
trim_prefix String.[] text = some text
trim_prefix (String.◌∷◌ c prefix) String.[] = none
trim_prefix (String.◌∷◌ c prefix) (String.◌∷◌ d text) =
    let rest = trim_prefix prefix text in if code c == code d then rest else none

-- the request that the creation of a SecurityPolicy queues
unfoldable pub add_security_policy : SecurityPolicy → Option NamespacedName
unfolding trim_prefix
add_security_policy policy =
    Option.map (λ name. record { name = name; namespace = policy.namespace })
      (trim_prefix "np-" policy.name)

-- The API server: reads, and writes that return the next state and the error of the call, if any.
pub record PolicyServer : Type 1 where
  pub State : Type 0
  pub read_network_policy : State → NamespacedName → Result ReadError NetworkPolicy
  pub read_security_policy : State → NamespacedName → Result ReadError SecurityPolicy
  pub create : SecurityPolicy → State → State × Option ReadError
  pub update : SecurityPolicy → State → State × Option ReadError
  pub delete : NamespacedName → State → State × Option ReadError

-- what Reconcile returns, when it does not panic
pub data Outcome : Type 0 where
  returns : Option ReadError → Outcome
  panics : Outcome

module _ (server : PolicyServer) where
  open server use {State}

  -- an error NotFound of Delete is ignored
  abbrev pub deleted : State × Option ReadError → State × Outcome
  deleted (s, none) = (s, returns none)
  deleted (s, some not_found) = (s, returns none)
  deleted (s, some (failed e)) = (s, returns (some (failed e)))

  abbrev pub written : State × Option ReadError → State × Outcome
  written (s, e) = (s, returns e)

  unfoldable pub write_security_policy :
      Option SecurityPolicy → Result ReadError SecurityPolicy → State → State × Outcome
  write_security_policy none found s = (s, panics)
  write_security_policy (some new) (err not_found) s = written (server.create new s)
  write_security_policy (some new) (err (failed e)) s = (s, returns (some (failed e)))
  write_security_policy (some new) (ok old) s =
      written (server.update (record old { spec = new.spec }) s)

  -- Any error of the first Get but NotFound leaves the policy empty, and is not looked at again.
  unfoldable pub reconcile_found :
      (IntOrString → String)
      → NamespacedName
      → Result ReadError NetworkPolicy
      → State
      → State × Outcome
  unfolding write_security_policy get_security_policy
  reconcile_found port_text key (err not_found) s = deleted (server.delete key s)
  reconcile_found port_text key (err (failed e)) s =
      write_security_policy (get_security_policy port_text empty_network_policy)
        (server.read_security_policy s key) s
  reconcile_found port_text key (ok policy) s =
      write_security_policy (get_security_policy port_text policy)
        (server.read_security_policy s key) s

  unfoldable pub network_policy_reconcile :
      (IntOrString → String) → NamespacedName → State → State × Outcome
  unfolding reconcile_found
  network_policy_reconcile port_text request s =
      reconcile_found port_text
        (record { name = security_policy_name request.name; namespace = request.namespace })
        (server.read_network_policy s request) s
