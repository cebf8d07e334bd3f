-- ===== src/EndpointController/Reached.antt =====
-- The agents' events in any order, and what the status of an endpoint is after them.
use everoute.Common.{◌≡◌, ap, ◌∙◌, String, ◌&&◌, some, List, [], ◌∷◌, any, string_eq, arith}
use mathlib.Core.Path.{subst}
use everoute.Common.Set.{has}
use everoute.Api.{AgentInfo, Endpoint, NamespacedName}
use everoute.EndpointController.{
  Iface, Indexer, ExternalId, agent_index_func, ifaces_of, add_all, delete_all, add_agent_info,
  update_agent_info, delete_agent_info,
}
use everoute.EndpointController.Mirror.{
  Agents, reported, drop, IsReport, Mirrors, IsAbsent, drop-IsAbsent, cleared-Mirrors,
  added-Mirrors,
}
use everoute.EndpointController.Status.{fetch_endpoint_status_from_agent_info}
use everoute.EndpointController.Status.Contents.{
  has_ip, is_at, carries, fetch_endpoint_status_from_agent_info-has,
}

module _ (cache : Indexer) where
  open cache use {State}

  -- The events of agents: one appears, reports again, or goes.
  pub data Reachable : State → Agents → Type 0 where
    empty : (s : State) → cache.list s ≡ [] → Reachable s []
    adds :
        {s s' : State} {agents : Agents} (eps : List Endpoint) (info : AgentInfo) (is : List Iface)
        (queue : List NamespacedName)
        → Reachable s agents
        → IsAbsent info.name agents
        → IsReport info.name is
        → ifaces_of info ≡ some is
        → add_agent_info cache eps info s ≡ some (s', queue)
        → Reachable s' ((info.name, is) ∷ agents)
    updates :
        {s s' : State} {agents : Agents} (eps : List Endpoint) (info old : AgentInfo)
        (is : List Iface) (queue : List NamespacedName)
        → Reachable s agents
        → old.name ≡ info.name
        → IsReport info.name is
        → ifaces_of info ≡ some is
        → update_agent_info cache eps info old s ≡ some (s', queue)
        → Reachable s' ((info.name, is) ∷ drop info.name agents)
    deletes :
        {s : State} {agents : Agents} (eps : List Endpoint) (info : AgentInfo)
        → Reachable s agents
        → Reachable (delete_agent_info cache eps info s).0 (drop info.name agents)

  added_state :
      (eps : List Endpoint) (info : AgentInfo) (is : List Iface) (queue : List NamespacedName)
      (s s' : State)
      → ifaces_of info ≡ some is
      → add_agent_info cache eps info s ≡ some (s', queue)
      → add_all cache is s ≡ s'
  unfolding add_agent_info
  added_state eps info is queue s s' h k = ground (arith, h, k)

  updated_state :
      (eps : List Endpoint) (info old : AgentInfo) (is : List Iface) (queue : List NamespacedName)
      (s s' : State)
      → old.name ≡ info.name
      → ifaces_of info ≡ some is
      → update_agent_info cache eps info old s ≡ some (s', queue)
      → add_all cache is (delete_all cache (cache.by_index agent_index_func info.name s) s) ≡ s'
  unfolding update_agent_info
  updated_state eps info old is queue s s' n h k =
      ground (arith, ap (λ x. cache.by_index agent_index_func x s) n, h, k)

  -- After any events the cache holds exactly the interfaces that the agents there are reported last.
  pub Reachable-Mirrors :
      (s : State) (agents : Agents) → Reachable s agents → Mirrors cache s agents
  unfolding delete_agent_info
  Reachable-Mirrors s agents (empty t none_yet) = record {
    same = λ p. ap (any p) none_yet;
    proper = tt;
  }
  Reachable-Mirrors s' agents'
        (adds {s = s} {agents = agents} eps info is queue before absent report read runs) =
      subst (λ t. Mirrors cache t ((info.name, is) ∷ agents))
        (added_state eps info is queue s s' read runs)
        (added-Mirrors cache info.name is s agents (Reachable-Mirrors s agents before) absent
          report)
  Reachable-Mirrors s' agents'
        (updates {s = s} {agents = agents} eps info old is queue before same report read runs) =
      let t = delete_all cache (cache.by_index agent_index_func info.name s) s in
      subst (λ t. Mirrors cache t ((info.name, is) ∷ drop info.name agents))
        (updated_state eps info old is queue s s' same read runs)
        (added-Mirrors cache info.name is t (drop info.name agents)
          (cleared-Mirrors cache s agents info.name (Reachable-Mirrors s agents before))
          (drop-IsAbsent info.name agents) report)
  Reachable-Mirrors s' agents' (deletes {s = s} {agents = agents} eps info before) =
      cleared-Mirrors cache s agents info.name (Reachable-Mirrors s agents before)

  -- After any events of agents, the status of an external ID has exactly the addresses of the
  -- interfaces with the ID that the agents there are reported last, and the agents that reported
  -- such an interface with an address.
  pub fetch_endpoint_status_from_agent_info-reported :
      (s : State) (agents : Agents) (id : ExternalId) (x : String)
      → Reachable s agents
      → (has x (fetch_endpoint_status_from_agent_info cache id s).ips
          ≡ reported (λ i. carries id i && has_ip x i) agents)
        × (has x (fetch_endpoint_status_from_agent_info cache id s).agents
            ≡ reported (λ i. carries id i && is_at x i) agents)
  fetch_endpoint_status_from_agent_info-reported s agents id x r =
      let m = Reachable-Mirrors s agents r in
      let (ips, ats) = fetch_endpoint_status_from_agent_info-has cache id s x in
      (
        ips ∙ m.same (λ i. carries id i && has_ip x i),
        ats ∙ m.same (λ i. carries id i && is_at x i),
      )
