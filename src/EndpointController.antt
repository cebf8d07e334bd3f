-- ===== src/EndpointController.antt =====
-- The endpoint controller of pkg/controller/endpoint/endpoint_controller.go, with ExternalID of
-- pkg/controller/types: this module has the cache of interfaces and what the events of agents do to
-- it, Status computes the status of an endpoint from it, and Cleaner takes addresses from agents.
pub mod Cleaner
pub mod Enqueued
pub mod Keys
pub mod Mirror
pub mod Reached
pub mod Status
pub mod Unchanged
use Prim.Native.Char.{Char}
use Prim.Native.String.{◌++◌ as then_text}
use everoute.Common.{
  ℕ, String, Bool, true, false, ◌&&◌, ◌||◌, ◌≡◌, not, Option, none, some, List, [], ◌∷◌, ◌++◌, any,
  gather, ◌==◌, string_eq, if◌then◌else◌,
}
use everoute.Common.Dict.{Dict, keys}
use everoute.Common.Set.{has}
use everoute.Api.{
  AgentInfo, AgentCondition, OvsBridge, OvsPort, OvsInterface, Endpoint, NamespacedName,
  endpoint_static_ip,
}

pub record Iface : Type 0 where
  pub agent_name : String
  pub name : String
  pub agent_time : ℕ
  pub external_ids : Dict String String
  pub mac : String
  pub ip_last_update_time_map : Dict String ℕ

-- fmt.Sprintf("%s/%s", a, b)
unfoldable pub slashed : String → String → String
slashed String.[] b = String.◌∷◌ "/" b
slashed (String.◌∷◌ c a) b = String.◌∷◌ c (slashed a b)

pub record ExternalId : Type 0 where
  pub name : String
  pub value : String

-- ExternalID.String
unfoldable pub external_id_string : ExternalId → String
unfolding slashed
external_id_string id = slashed id.name id.value

unfoldable pub get_endpoint_id : Endpoint → ExternalId
get_endpoint_id ep = record {
  name = ep.spec.reference.external_id_name;
  value = ep.spec.reference.external_id_value;
}

unfoldable pub iface_key_func : Iface → String
unfolding slashed
iface_key_func iface = slashed iface.agent_name iface.name

unfoldable pub agent_index_func : Iface → List String
agent_index_func iface = iface.agent_name ∷ []

abbrev pub id_strings : Dict String String → List String
id_strings [] = []
id_strings ((name, value) ∷ rest) =
    external_id_string (record { name = name; value = value }) ∷ id_strings rest

unfoldable pub external_id_index_func : Iface → List String
unfolding external_id_string
external_id_index_func iface = id_strings iface.external_ids

unfoldable pub ip_addr_index_func : Iface → List String
ip_addr_index_func iface = keys iface.ip_last_update_time_map

-- cache.Indexer of client-go over interfaces with iface_key_func: an object that is added replaces
-- the one of its key, one that is deleted takes away the one of its key, and an index lists the
-- objects for which the index function gives the value.
pub record Indexer : Type 1 where
  pub State : Type 0
  pub list : State → List Iface
  pub add : Iface → State → State
  pub delete : Iface → State → State
  pub by_index : (Iface → List String) → String → State → List Iface
  pub any-add :
      (p : Iface → Bool) (i : Iface) (s : State)
      → any p (list (add i s))
        ≡ (p i || any (λ j. not (iface_key_func j == iface_key_func i) && p j) (list s))
  pub any-delete :
      (p : Iface → Bool) (i : Iface) (s : State)
      → any p (list (delete i s))
        ≡ any (λ j. not (iface_key_func j == iface_key_func i) && p j) (list s)
  pub any-by_index :
      (p : Iface → Bool) (f : Iface → List String) (v : String) (s : State)
      → any p (by_index f v s) ≡ any (λ j. has v (f j) && p j) (list s)

-- the body of the loops over the interfaces of an agent
unfoldable pub to_iface : String → ℕ → OvsInterface → Iface
to_iface agent_name time ovs_iface = record {
  agent_name = agent_name;
  name = ovs_iface.name;
  agent_time = time;
  external_ids = ovs_iface.external_ids;
  mac = ovs_iface.mac;
  ip_last_update_time_map = ovs_iface.ip_map;
}

abbrev pub interfaces_of : AgentInfo → List OvsInterface
interfaces_of info =
    gather (λ (b : OvsBridge). gather (λ (p : OvsPort). p.interfaces) b.ports) info.bridges

abbrev pub to_ifaces : String → ℕ → List OvsInterface → List Iface
to_ifaces agent_name time [] = []
to_ifaces agent_name time (i ∷ rest) = to_iface agent_name time i ∷ to_ifaces agent_name time rest

-- Conditions[0] of an agent without conditions panics, if there is an interface
abbrev pub timed : String → List AgentCondition → List OvsInterface → Option (List Iface)
timed name conditions [] = some []
timed name [] (i ∷ rest) = none
timed name (c ∷ conditions) (i ∷ rest) = some (to_ifaces name c.last_heartbeat_time (i ∷ rest))

unfoldable pub ifaces_of : AgentInfo → Option (List Iface)
unfolding to_iface
ifaces_of info = timed info.name info.conditions (interfaces_of info)

abbrev pub request_of : Endpoint → NamespacedName
request_of ep = record { name = ep.name; namespace = ep.namespace }

module _ (cache : Indexer) where
  open cache use {State}

  abbrev pub add_all : List Iface → State → State
  add_all [] s = s
  add_all (i ∷ rest) s = add_all rest (cache.add i s)

  abbrev pub delete_all : List Iface → State → State
  delete_all [] s = s
  delete_all (i ∷ rest) s = delete_all rest (cache.delete i s)

  abbrev pub ifaces_at : List String → State → List Iface
  ifaces_at ips s = gather (λ ip. cache.by_index ip_addr_index_func ip s) ips

  -- the interfaces that are looked up for an endpoint
  unfoldable pub looked_up : Endpoint → State → List Iface
  unfolding get_endpoint_id external_id_string external_id_index_func ip_addr_index_func
  looked_up ep s =
      cache.by_index external_id_index_func (external_id_string (get_endpoint_id ep)) s
      ++ (if ep.spec.type == endpoint_static_ip then ifaces_at ep.status.ips s else [])

  -- one request for each interface at the agent
  abbrev pub requests_for : NamespacedName → String → List Iface → List NamespacedName
  requests_for request agent_name [] = []
  requests_for request agent_name (i ∷ rest) =
      let more = requests_for request agent_name rest in
      if i.agent_name == agent_name then request ∷ more else more

  unfoldable pub enqueue_endpoints_on_agent_locked :
      List Endpoint → String → State → List NamespacedName
  unfolding looked_up
  enqueue_endpoints_on_agent_locked ep_list agent_name s =
      gather (λ ep. requests_for (request_of ep) agent_name (looked_up ep s)) ep_list

  -- the cache and the queue; `none` where the handler panics
  unfoldable pub add_agent_info :
      List Endpoint → AgentInfo → State → Option (State × List NamespacedName)
  unfolding ifaces_of enqueue_endpoints_on_agent_locked
  add_agent_info ep_list info s = elim (ifaces_of info) [
    | none ↦ none
    | some ifaces ↦
        let s' = add_all ifaces s in
        some (s', enqueue_endpoints_on_agent_locked ep_list info.name s')
  ]

  unfoldable pub update_agent_info :
      List Endpoint → AgentInfo → AgentInfo → State → Option (State × List NamespacedName)
  unfolding ifaces_of enqueue_endpoints_on_agent_locked agent_index_func
  update_agent_info ep_list new_info old_info s =
      let before = enqueue_endpoints_on_agent_locked ep_list new_info.name s in
      let cleared = delete_all (cache.by_index agent_index_func old_info.name s) s in
      elim (ifaces_of new_info) [
        | none ↦ none
        | some ifaces ↦
            let s' = add_all ifaces cleared in
            some (s', before ++ enqueue_endpoints_on_agent_locked ep_list new_info.name s')
      ]

  unfoldable pub delete_agent_info : List Endpoint → AgentInfo → State → State × List NamespacedName
  unfolding enqueue_endpoints_on_agent_locked agent_index_func
  delete_agent_info ep_list info s = (
    delete_all (cache.by_index agent_index_func info.name s) s,
    enqueue_endpoints_on_agent_locked ep_list info.name s,
  )
