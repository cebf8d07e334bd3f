-- ===== src/Api.antt =====
-- The resources of pkg/apis/security/v1alpha1/types.go and pkg/apis/group/v1alpha1/types.go, and
-- the selectors of pkg/labels. Of the Kubernetes metadata only the name and the namespace are
-- kept; a pointer is an Option; a string type keeps its constants as texts.
use Prim.Native.Nat.{ℕ}
use everoute.Common.{
  String, Bool, true, Option, List, Eq, ◌==◌, string_eq, nat_eq, ◌&&◌, ◌↔◌, ◌≡◌, arith,
}
use everoute.Common.Dict.{Dict}

-- metav1.LabelSelectorOperator; `other` is a text that names no operator
pub data Operator : Type 0 where
  op_in op_not_in op_exists op_does_not_exist : Operator
  other : String → Operator

-- metav1.LabelSelectorRequirement
pub record Requirement : Type 0 where
  pub key : String
  pub operator : Operator
  pub values : List String

-- labels.Selector, with the fields of metav1.LabelSelector
pub record Selector : Type 0 where
  pub match_labels : Dict String String
  pub match_expressions : List Requirement
  pub extend_match_labels : Dict String (List String)
  pub match_nothing : Bool

-- metav1.LabelSelector
pub record LabelSelector : Type 0 where
  pub match_labels : Dict String String
  pub match_expressions : List Requirement

abbrev pub protocol_tcp : String
protocol_tcp = "TCP"

abbrev pub protocol_udp : String
protocol_udp = "UDP"

abbrev pub protocol_icmp : String
protocol_icmp = "ICMP"

abbrev pub port_type_name : String
port_type_name = "name"

abbrev pub port_type_number : String
port_type_number = "number"

-- a port number is an int32; only the numbers from 0 on occur
pub record NamedPort : Type 0 where
  pub port : ℕ
  pub name : String
  pub protocol : String

pub record NamespacedName : Type 0 where
  pub name : String
  pub namespace : String

pub record SecurityPolicyPort : Type 0 where
  pub protocol : String
  pub port_range : String
  pub type : String

-- networkingv1.IPBlock
pub record IpBlock : Type 0 where
  pub cidr : String
  pub except : List String

pub record SecurityPolicyPeer : Type 0 where
  pub ip_block : Option IpBlock
  pub endpoint : Option NamespacedName
  pub endpoint_selector : Option Selector
  pub namespace_selector : Option LabelSelector

pub record ApplyToPeer : Type 0 where
  pub endpoint : Option String
  pub endpoint_selector : Option Selector

pub record Rule : Type 0 where
  pub name : String
  pub ports : List SecurityPolicyPort
  pub from : List SecurityPolicyPeer
  pub to : List SecurityPolicyPeer

pub record SecurityPolicySpec : Type 0 where
  pub tier : String
  pub security_policy_enforcement_mode : String
  pub symmetric_mode : Bool
  pub applied_to : List ApplyToPeer
  pub ingress_rules : List Rule
  pub egress_rules : List Rule
  pub default_rule : String
  pub policy_types : List String

pub record SecurityPolicy : Type 0 where
  pub name : String
  pub namespace : String
  pub spec : SecurityPolicySpec

-- EndpointReference is comparable, and a key of maps.
pub record EndpointReference : Type 0 where
  pub external_id_name : String
  pub external_id_value : String

abbrev pub reference_beq : EndpointReference → EndpointReference → Bool
reference_beq a b =
    a.external_id_name == b.external_id_name && a.external_id_value == b.external_id_value

pub reference_beq_iff : (a b : EndpointReference) → (reference_beq a b ≡ true) ↔ (a ≡ b)
reference_beq_iff a b = ground (
  arith,
  string_eq.beq_iff a.external_id_name b.external_id_name,
  string_eq.beq_iff a.external_id_value b.external_id_value,
)

instance abbrev pub reference_eq : Eq EndpointReference
reference_eq = record { beq = reference_beq; beq_iff = reference_beq_iff }

pub record GroupMember : Type 0 where
  pub endpoint_reference : EndpointReference
  pub endpoint_agent : List String
  pub ips : List String
  pub ports : List NamedPort

pub record GroupMembers : Type 0 where
  pub name : String
  pub revision : ℕ
  pub group_members : List GroupMember

pub record GroupMembersReference : Type 0 where
  pub name : String
  pub revision : ℕ

pub record GroupMembersPatch : Type 0 where
  pub name : String
  pub applied_to_group_members : GroupMembersReference
  pub added_group_members : List GroupMember
  pub updated_group_members : List GroupMember
  pub removed_group_members : List GroupMember

pub record EndpointGroupSpec : Type 0 where
  pub endpoint_selector : Option Selector
  pub namespace_selector : Option LabelSelector
  pub namespace : Option String
  pub endpoint : Option NamespacedName

pub record EndpointGroup : Type 0 where
  pub name : String
  pub spec : EndpointGroupSpec

abbrev pub endpoint_dynamic : String
endpoint_dynamic = "dynamic"

abbrev pub endpoint_static : String
endpoint_static = "static"

abbrev pub endpoint_static_ip : String
endpoint_static_ip = "static-ip"

pub record EndpointSpec : Type 0 where
  pub vid : ℕ
  pub extend_labels : Dict String (List String)
  pub reference : EndpointReference
  pub type : String
  pub ports : List NamedPort

pub record EndpointStatus : Type 0 where
  pub ips : List String
  pub mac_address : String
  pub agents : List String

pub record Endpoint : Type 0 where
  pub name : String
  pub namespace : String
  pub labels : Dict String String
  pub spec : EndpointSpec
  pub status : EndpointStatus

-- The interfaces that an agent reports. A time is its second; the map of addresses holds the time
-- at which each was learned.
pub record OvsInterface : Type 0 where
  pub name : String
  pub external_ids : Dict String String
  pub mac : String
  pub ip_map : Dict String ℕ

pub record OvsPort : Type 0 where
  pub interfaces : List OvsInterface

pub record OvsBridge : Type 0 where
  pub ports : List OvsPort

pub record AgentCondition : Type 0 where
  pub last_heartbeat_time : ℕ

pub record AgentInfo : Type 0 where
  pub name : String
  pub bridges : List OvsBridge
  pub conditions : List AgentCondition
