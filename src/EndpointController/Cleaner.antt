-- ===== src/EndpointController/Cleaner.antt =====
-- What pkg/controller/endpoint/endpoint_controller.go takes from the reports of agents: addresses
-- that another interface reports (toUpdatedAgentInfo), and addresses that were not renewed
-- (cleanExpiredIPFromAgentInfo). The results are the reports that are written to the API server;
-- a write that fails is only logged, or ends the round.
pub mod Expired
use everoute.Common.{
  ℕ, ◌+◌, String, Bool, true, false, ◌&&◌, ◌||◌, Option, none, some, List, [], ◌∷◌, fold, ltb, ◌==◌,
  string_eq, if◌then◌else◌,
}
use everoute.Common.Dict.{Dict, lookup, insert, delete, delete_if, keys}
use everoute.Common.Set.{has, insert_all}
use everoute.Api.{AgentInfo, OvsBridge, OvsPort, OvsInterface}
use everoute.Labels.{is_nil}
use everoute.EndpointController.{Iface, Indexer, interfaces_of}

-- a loop that changes elements in place, and whether it changed one
abbrev pub map_changed {ℓ} : {A : Type ℓ} → (A → A × Bool) → List A → List A × Bool
map_changed f [] = ([], false)
map_changed f (x ∷ xs) =
    let first = f x in let rest = map_changed f xs in (first.0 ∷ rest.0, first.1 || rest.1)

-- the loops over the interfaces of a report
abbrev pub change_port : (OvsInterface → OvsInterface × Bool) → OvsPort → OvsPort × Bool
change_port f port =
    let changed = map_changed f port.interfaces in
    (record port { interfaces = changed.0 }, changed.1)

abbrev pub change_bridge : (OvsInterface → OvsInterface × Bool) → OvsBridge → OvsBridge × Bool
change_bridge f bridge =
    let changed = map_changed (change_port f) bridge.ports in
    (record bridge { ports = changed.0 }, changed.1)

abbrev pub change_info : (OvsInterface → OvsInterface × Bool) → AgentInfo → AgentInfo × Bool
change_info f info =
    let changed = map_changed (change_bridge f) info.bridges in
    (record info { bridges = changed.0 }, changed.1)

-- the reports that a loop changed
abbrev pub changed_infos : (AgentInfo → AgentInfo × Bool) → List AgentInfo → List AgentInfo
changed_infos f [] = []
changed_infos f (info ∷ rest) =
    let more = changed_infos f rest in if (f info).1 then (f info).0 ∷ more else more

unfoldable pub to_ip_string_set : Dict String ℕ → List String
to_ip_string_set ip_map = insert_all [] (keys ip_map)

-- Intersection of sets.String
abbrev pub intersection : List String → List String → List String
intersection [] t = []
intersection (x ∷ xs) t = let rest = intersection xs t in if has x t then x ∷ rest else rest

-- the first intersection that is not empty
unfoldable pub deleted_among : String → OvsInterface → String → List OvsInterface → List String
unfolding to_ip_string_set
deleted_among agent_name ovs_interface name [] = []
deleted_among agent_name ovs_interface name (ovs_iface ∷ rest) =
    let later = deleted_among agent_name ovs_interface name rest in
    let shared =
      intersection (to_ip_string_set ovs_iface.ip_map) (to_ip_string_set ovs_interface.ip_map) in
    if name == agent_name && ovs_iface.name == ovs_interface.name
    then later
    else if is_nil shared
    then later
    else shared

unfoldable pub get_deleted_ip : String → OvsInterface → AgentInfo → List String
unfolding deleted_among
get_deleted_ip agent_name ovs_interface info =
    deleted_among agent_name ovs_interface info.name (interfaces_of info)

unfoldable pub take_ips : String → AgentInfo → OvsInterface → OvsInterface × Bool
unfolding get_deleted_ip
take_ips agent_name new_agent_info ovs_iface =
    let ip_need_delete = get_deleted_ip agent_name ovs_iface new_agent_info in
    if is_nil ip_need_delete then (ovs_iface, false) else (
      record ovs_iface { ip_map = delete_if (λ ip. has ip ip_need_delete) ovs_iface.ip_map },
      true,
    )

-- for the reports that the client lists
unfoldable pub to_updated_agent_info : List AgentInfo → AgentInfo → List AgentInfo
unfolding take_ips
to_updated_agent_info items new_agent_info =
    changed_infos (λ info. change_info (take_ips info.name new_agent_info) info) items

abbrev pub endpoint_external_id_key : String
endpoint_external_id_key = "iface-id"

abbrev pub k8s_endpoint_external_id_key : String
k8s_endpoint_external_id_key = "pod-uuid"

abbrev pub or_text : Option String → String → String
or_text none rest = rest
or_text (some text) rest = text

-- for an interface of the cache and for one of a report
unfoldable pub get_endpoint_iface_id : Dict String String → String
get_endpoint_iface_id external_ids =
    or_text (lookup endpoint_external_id_key external_ids)
      (or_text (lookup k8s_endpoint_external_id_key external_ids) "")

-- the loop over the addresses: the time of the report is after the time at which the address ends
unfoldable pub expired_among : ℕ → ℕ → Dict String ℕ → List String
expired_among timeout agent_time [] = []
expired_among timeout agent_time ((ip, t) ∷ rest) =
    let later = expired_among timeout agent_time rest in
    if ltb (t + timeout) agent_time then ip ∷ later else later

unfoldable pub compute_interface_expired_ips : ℕ → Iface → List String
unfolding expired_among
compute_interface_expired_ips timeout iface =
    expired_among timeout iface.agent_time iface.ip_last_update_time_map

-- the body of the loop over the cached interfaces
unfoldable pub put_expired : ℕ → Dict String (List String) → Iface → Dict String (List String)
unfolding get_endpoint_iface_id compute_interface_expired_ips
put_expired timeout expired_ip_map iface =
    let iface_id = get_endpoint_iface_id iface.external_ids in
    let expired_ips = compute_interface_expired_ips timeout iface in
    if iface_id == ""
    then expired_ip_map
    else if is_nil expired_ips
    then expired_ip_map
    else insert iface_id expired_ips expired_ip_map

abbrev pub delete_all_ips : Dict String ℕ → List String → Dict String ℕ
delete_all_ips ip_map [] = ip_map
delete_all_ips ip_map (ip ∷ rest) = delete_all_ips (delete ip ip_map) rest

abbrev pub take_found : Option (List String) → OvsInterface → OvsInterface × Bool
take_found none ovs_iface = (ovs_iface, false)
take_found (some expired_ips) ovs_iface =
    (record ovs_iface { ip_map = delete_all_ips ovs_iface.ip_map expired_ips }, true)

unfoldable pub take_expired : Dict String (List String) → OvsInterface → OvsInterface × Bool
unfolding get_endpoint_iface_id
take_expired expired_ip_map ovs_iface =
    let iface_id = get_endpoint_iface_id ovs_iface.external_ids in
    if iface_id == ""
    then (ovs_iface, false)
    else take_found (lookup iface_id expired_ip_map) ovs_iface

unfoldable pub update_expired_iface : List AgentInfo → Dict String (List String) → List AgentInfo
unfolding take_expired
update_expired_iface items expired_ip_map =
    changed_infos (change_info (take_expired expired_ip_map)) items

module _ (cache : Indexer) where
  open cache use {State}

  unfoldable pub expired_map : ℕ → State → Dict String (List String)
  unfolding put_expired
  expired_map timeout s = fold (put_expired timeout) [] (cache.list s)

  unfoldable pub clean_expired_ip_from_agent_info : ℕ → List AgentInfo → State → List AgentInfo
  unfolding update_expired_iface expired_map
  clean_expired_ip_from_agent_info timeout items s =
      if is_nil (expired_map timeout s)
      then []
      else update_expired_iface items (expired_map timeout s)
