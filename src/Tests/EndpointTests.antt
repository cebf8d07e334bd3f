-- ===== src/Tests/EndpointTests.antt =====
-- The theorems on the endpoint controller, with a list for the cache of interfaces.
use everoute.Common.{
  ℕ, ◌≡◌, refl, String, Bool, ◌&&◌, ◌||◌, not, none, some, List, [], ◌∷◌, any, ◌==◌, string_eq,
  arith, if◌then◌else◌, ap,
}
use everoute.Common.Dict.{lookup}
use everoute.Common.Set.{has}
use everoute.Api.{AgentInfo, OvsInterface, Endpoint, endpoint_static_ip}
use everoute.EndpointController.{
  Iface, Indexer, iface_key_func, ifaces_of, to_iface, add_agent_info, update_agent_info,
  enqueue_endpoints_on_agent_locked, get_endpoint_id, ExternalId, request_of,
}
use everoute.EndpointController.Mirror.{reported, Agents}
use everoute.EndpointController.Reached.{
  Reachable, empty, adds, fetch_endpoint_status_from_agent_info-reported,
}
use everoute.EndpointController.Enqueued.{update_agent_info-enqueues, SameStatus}
use everoute.EndpointController.Status.{fetch_endpoint_status_from_agent_info, expect_status}
use everoute.EndpointController.Status.Contents.{has_ip, is_at, carries}
use everoute.EndpointController.Cleaner.{take_expired, expired_map}
use everoute.EndpointController.Cleaner.Expired.{fresh_address_lost}

abbrev select : (Iface → Bool) → List Iface → List Iface
select p [] = []
select p (i ∷ rest) = let more = select p rest in if p i then i ∷ more else more

any-select : (p q : Iface → Bool) (is : List Iface) → any p (select q is) ≡ any (λ i. q i && p i) is
any-select p q [] = refl
any-select p q (i ∷ rest) = ground (arith, any-select p q rest)

abbrev others : Iface → List Iface → List Iface
others i = select (λ j. not (iface_key_func j == iface_key_func i))

abbrev list_cache : Indexer
list_cache = record {
  State = List Iface;
  list = λ s. s;
  add = λ i s. i ∷ others i s;
  delete = others;
  by_index = λ f v s. select (λ j. has v (f j)) s;
  any-add = λ p i s.
      ap (λ b. p i || b) (any-select p (λ j. not (iface_key_func j == iface_key_func i)) s);
  any-delete = λ p i s. any-select p (λ j. not (iface_key_func j == iface_key_func i)) s;
  any-by_index = λ p f v s. any-select p (λ j. has v (f j)) s;
}

abbrev port_of : String → String → ℕ → OvsInterface
port_of name id time = record {
  name = name;
  external_ids = ("iface-id", id) ∷ [];
  mac = "02:00:00:00:00:01";
  ip_map = ("10.0.0.1", time) ∷ [];
}

abbrev report : String → String → ℕ → AgentInfo
report agent id time = record {
  name = agent;
  bridges = record { ports = record { interfaces = port_of "tap" id time ∷ [] } ∷ [] } ∷ [];
  conditions = record { last_heartbeat_time = 5000 } ∷ [];
}

abbrev iface : String → String → ℕ → Iface
iface agent id time = record {
  agent_name = agent;
  name = "tap";
  agent_time = 5000;
  external_ids = ("iface-id", id) ∷ [];
  mac = "02:00:00:00:00:01";
  ip_last_update_time_map = ("10.0.0.1", time) ∷ [];
}

abbrev vm : ExternalId
vm = record { name = "iface-id"; value = "vm" }

read :
    (agent id : String) (time : ℕ)
    → ifaces_of (report agent id time) ≡ some (iface agent id time ∷ [])
unfolding ifaces_of
read agent id time = refl

-- one agent has reported the interface
abbrev one : List Iface
one = iface "host" "vm" 10 ∷ []

abbrev one_agent : Agents
one_agent = ("host", one) ∷ []

added : add_agent_info list_cache [] (report "host" "vm" 10) [] ≡ some (one, [])
unfolding add_agent_info ifaces_of
added = refl

one-Reachable : Reachable list_cache one one_agent
one-Reachable =
    adds [] (report "host" "vm" 10) one [] (empty [] refl) tt (refl, (refl, tt), (refl, tt))
      (read "host" "vm" 10) added

fetch_endpoint_status_from_agent_info-reported_example :
    (has "10.0.0.1" (fetch_endpoint_status_from_agent_info list_cache vm one).ips
      ≡ reported (λ i. carries vm i && has_ip "10.0.0.1" i) one_agent)
    × (has "10.0.0.1" (fetch_endpoint_status_from_agent_info list_cache vm one).agents
        ≡ reported (λ i. carries vm i && is_at "10.0.0.1" i) one_agent)
fetch_endpoint_status_from_agent_info-reported_example =
    fetch_endpoint_status_from_agent_info-reported list_cache one one_agent vm "10.0.0.1"
      one-Reachable

-- another endpoint, with an address that the agent does not have
abbrev other : Endpoint
other = record {
  name = "other";
  namespace = "default";
  labels = [];
  spec = record {
    vid = 0;
    extend_labels = [];
    reference = record { external_id_name = "iface-id"; external_id_value = "db" };
    type = endpoint_static_ip;
    ports = [];
  };
  status = record { ips = "10.0.0.9" ∷ []; mac_address = ""; agents = [] };
}

abbrev two : List Iface
two = iface "host" "vm" 20 ∷ []

updated :
    update_agent_info list_cache (other ∷ []) (report "host" "vm" 20) (report "host" "vm" 10) one
    ≡ some (two, [])
unfolding update_agent_info ifaces_of has iface_key_func
updated = refl

update_agent_info-enqueues_example :
    SameStatus (expect_status list_cache other one) (expect_status list_cache other two)
update_agent_info-enqueues_example =
    update_agent_info-enqueues list_cache one two one_agent [] [] other (report "host" "vm" 20)
      (report "host" "vm" 10) two [] one-Reachable refl (refl, (refl, tt), (refl, tt))
      (read "host" "vm" 20) updated refl

-- the address is expired at one agent, and was learned just now at another
fresh_address_lost_example :
    lookup "10.0.0.1"
      (take_expired (expired_map list_cache 1800 one) (port_of "tap" "vm" 5000)).0.ip_map
    ≡ none
unfolding lookup everoute.EndpointController.Cleaner.get_endpoint_iface_id
fresh_address_lost_example =
    fresh_address_lost list_cache one 1800 [] (iface "host" "vm" 10) (port_of "tap" "vm" 5000)
      "10.0.0.1" refl (refl, tt) refl refl refl
