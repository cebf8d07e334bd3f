-- ===== src/EndpointController/Status.antt =====
-- fetchEndpointStatusFromAgentInfo, fetchEndpointStatusByIP, EqualEndpointStatus and Reconcile of
-- pkg/controller/endpoint/endpoint_controller.go. List of sets.String is sorted. The index exists,
-- so the lookup has no error; the API server's answers are parameters.
pub mod Contents
use everoute.Common.{
  String, Bool, true, false, ◌&&◌, Option, none, some, List, [], ◌∷◌, fold, ◌==◌, string_eq,
  if◌then◌else◌,
}
use everoute.Common.Dict.{keys}
use everoute.Common.Set.{add, insert_all}
use everoute.Api.{Endpoint, EndpointStatus, endpoint_static, endpoint_static_ip}
use everoute.Labels.{is_nil}
use everoute.Utils.{equal_ips, equal_string_slice, sort_strings}
use everoute.EndpointController.{
  Iface, ExternalId, Indexer, external_id_string, external_id_index_func, ip_addr_index_func,
  get_endpoint_id,
}

-- the two sets of the loop
pub record Sets : Type 0 where
  pub ips : List String
  pub agents : List String

abbrev pub collect : Sets → Iface → Sets
collect sets iface = if is_nil iface.ip_last_update_time_map then sets else record {
  ips = insert_all sets.ips (keys iface.ip_last_update_time_map);
  agents = add iface.agent_name sets.agents;
}

abbrev pub empty_sets : Sets
empty_sets = record { ips = []; agents = [] }

-- the status that the interfaces make together
unfoldable pub combine : List Iface → EndpointStatus
combine [] = record { ips = []; mac_address = ""; agents = [] }
combine (first ∷ rest) =
    let sets = fold collect empty_sets (first ∷ rest) in
    record {
      ips = sort_strings sets.ips;
      mac_address = first.mac;
      agents = sort_strings sets.agents;
    }

unfoldable pub equal_endpoint_status : EndpointStatus → EndpointStatus → Bool
equal_endpoint_status s e =
    s.mac_address == e.mac_address && equal_ips s.ips e.ips && equal_string_slice s.agents e.agents

module _ (cache : Indexer) where
  open cache use {State}

  unfoldable pub fetch_endpoint_status_from_agent_info : ExternalId → State → EndpointStatus
  unfolding combine
  fetch_endpoint_status_from_agent_info id s =
      combine (cache.by_index external_id_index_func (external_id_string id) s)

  abbrev pub insert_agent : List String → Iface → List String
  insert_agent set iface = add iface.agent_name set

  abbrev pub insert_agents_at : State → List String → String → List String
  insert_agents_at s set ip = fold insert_agent set (cache.by_index ip_addr_index_func ip s)

  unfoldable pub fetch_endpoint_status_by_ip : List String → State → EndpointStatus
  fetch_endpoint_status_by_ip ips s = record {
    ips = ips;
    mac_address = "";
    agents = sort_strings (fold (insert_agents_at s) [] ips);
  }

  -- the switch over the type; `none` where the status is left alone
  unfoldable pub expect_status : Endpoint → State → Option EndpointStatus
  unfolding fetch_endpoint_status_from_agent_info fetch_endpoint_status_by_ip
  expect_status endpoint s =
      if endpoint.spec.type == endpoint_static
      then none
      else if endpoint.spec.type == endpoint_static_ip
      then (if is_nil endpoint.status.ips
          then none
          else some (fetch_endpoint_status_by_ip endpoint.status.ips s))
      else some (fetch_endpoint_status_from_agent_info (get_endpoint_id endpoint) s)

  -- Reconcile of an endpoint that was read: the status that it writes, if it writes one
  unfoldable pub reconcile : Endpoint → State → Option EndpointStatus
  unfolding expect_status
  reconcile endpoint s = elim (expect_status endpoint s) [
    | none ↦ none
    | some status ↦ if equal_endpoint_status endpoint.status status then none else some status
  ]
