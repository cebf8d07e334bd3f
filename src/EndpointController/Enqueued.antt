-- ===== src/EndpointController/Enqueued.antt =====
-- An update of an agent enqueues every endpoint whose status it changes.
use everoute.Common.{
  ◌≡◌, refl, sym, ap, ◌∙◌, String, Bool, true, false, ◌&&◌, some, List, [], ◌∷◌, ◌++◌, any,
  any-append, any-gather, ◌==◌, string_eq, arith, if◌then◌else◌, Option, none, fold, Bool-cases,
  inl, inr,
}
use everoute.Common.Set.{has}
use everoute.Labels.{is_nil}
use everoute.Utils.Equality.{has-sort_strings}
use everoute.Api.{
  AgentInfo, Endpoint, EndpointStatus, NamespacedName, endpoint_static, endpoint_static_ip,
}
use everoute.EndpointController.{
  Iface, Indexer, external_id_index_func, external_id_string, get_endpoint_id, ifaces_of, ifaces_at,
  looked_up, requests_for, request_of, enqueue_endpoints_on_agent_locked, update_agent_info,
}
use everoute.EndpointController.Mirror.{Agents, drop, IsReport, Mirrors}
use everoute.EndpointController.Reached.{Reachable, updates, Reachable-Mirrors}
use everoute.EndpointController.Status.{
  fetch_endpoint_status_from_agent_info, fetch_endpoint_status_by_ip, insert_agents_at,
  expect_status,
}
use everoute.EndpointController.Status.Contents.{
  has_ip, is_at, carries, fetch_endpoint_status_from_agent_info-has,
}
use everoute.EndpointController.Unchanged.{unchanged, agents-unchanged}

abbrev pub is_request : NamespacedName → NamespacedName → Bool
is_request a b = a.name == b.name && a.namespace == b.namespace

-- Two statuses that Reconcile may expect have the same addresses and agents.
abbrev pub SameStatus : Option EndpointStatus → Option EndpointStatus → Type 0
SameStatus none none = Unit
SameStatus none (some b) = ⊥
SameStatus (some a) none = ⊥
SameStatus (some a) (some b) =
    (x : String) → (has x a.ips ≡ has x b.ips) × (has x a.agents ≡ has x b.agents)

module _ (cache : Indexer) where
  open cache use {State}

  requests-any :
      (request : NamespacedName) (agent_name : String) (is : List Iface)
      → any (λ i. i.agent_name == agent_name) is ≡ true
      → any (is_request request) (requests_for cache request agent_name is) ≡ true
  requests-any request agent_name [] h = absurd (ground (arith, h))
  requests-any request agent_name (i ∷ rest) h = ground (
    arith,
    h,
    requests-any request agent_name rest,
    string_eq.beq_iff request.name request.name,
    string_eq.beq_iff request.namespace request.namespace,
  )

  -- an endpoint that is not enqueued has no interface at the agent among those looked up
  not_enqueued :
      (before after : List Endpoint) (ep : Endpoint) (agent_name : String) (s : State)
      → any
          (is_request (request_of ep))
          (enqueue_endpoints_on_agent_locked cache (before ++ ep ∷ after) agent_name s)
        ≡ false
      → any (λ i. i.agent_name == agent_name) (looked_up cache ep s) ≡ false
  unfolding enqueue_endpoints_on_agent_locked
  not_enqueued before after ep agent_name s h =
      let f =
        λ (e : Endpoint). requests_for cache (request_of e) agent_name (looked_up cache e s) in
      let step = any-gather (is_request (request_of ep)) f (before ++ ep ∷ after) in
      let none_here =
        any-append (λ e. any (is_request (request_of ep)) (f e)) before (ep ∷ after) in
      ground
        (arith, h, step, none_here, requests-any (request_of ep) agent_name (looked_up cache ep s))

  -- which are those that carry its ID,
  looked_up-id :
      (ep : Endpoint) (agent_name : String) (s : State)
      → any (λ i. i.agent_name == agent_name) (looked_up cache ep s) ≡ false
      → any (λ i. carries (get_endpoint_id ep) i && i.agent_name == agent_name) (cache.list s)
        ≡ false
  unfolding looked_up
  looked_up-id ep agent_name s h =
      let found =
        cache.by_index external_id_index_func (external_id_string (get_endpoint_id ep)) s in
      let more =
        if ep.spec.type == endpoint_static_ip then ifaces_at cache ep.status.ips s else [] in
      let at = λ (i : Iface). i.agent_name == agent_name in
      ground (
        arith,
        h,
        any-append at found more,
        cache.any-by_index at external_id_index_func (external_id_string (get_endpoint_id ep)) s,
      )

  -- and, for static addresses, those that have one of them
  looked_up-ips :
      (ep : Endpoint) (agent_name : String) (s : State)
      → ep.spec.type == endpoint_static_ip ≡ true
      → any (λ i. i.agent_name == agent_name) (looked_up cache ep s) ≡ false
      → any (λ i. i.agent_name == agent_name) (ifaces_at cache ep.status.ips s) ≡ false
  unfolding looked_up
  looked_up-ips ep agent_name s static h =
      let found =
        cache.by_index external_id_index_func (external_id_string (get_endpoint_id ep)) s in
      let at = λ (i : Iface). i.agent_name == agent_name in
      let split =
        any-append at found
          (if ep.spec.type == endpoint_static_ip then ifaces_at cache ep.status.ips s else []) in
      ground (arith, h, split, static)

module _ (cache : Indexer) where
  open cache use {State}

  -- the two halves of the queue
  queued :
      (eps : List Endpoint) (info old : AgentInfo) (is : List Iface) (queue : List NamespacedName)
      (s s' : State)
      → ifaces_of info ≡ some is
      → update_agent_info cache eps info old s ≡ some (s', queue)
      → enqueue_endpoints_on_agent_locked cache eps info.name s
          ++ enqueue_endpoints_on_agent_locked cache eps info.name s'
        ≡ queue
  unfolding update_agent_info
  queued eps info old is queue s s' h k = ground (arith, h, k)

  -- the status by the external ID, and by the addresses
  id-unchanged :
      (s s' : State) (agents : Agents) (ep : Endpoint) (name : String) (is : List Iface)
      → Mirrors cache s agents
      → Mirrors cache s' ((name, is) ∷ drop name agents)
      → any (λ i. i.agent_name == name) (looked_up cache ep s) ≡ false
      → any (λ i. i.agent_name == name) (looked_up cache ep s') ≡ false
      → SameStatus
          (some (fetch_endpoint_status_from_agent_info cache (get_endpoint_id ep) s))
          (some (fetch_endpoint_status_from_agent_info cache (get_endpoint_id ep) s'))
  id-unchanged s s' agents ep name is m m' none_here none_here' x =
      let id = get_endpoint_id ep in
      let gone = looked_up-id cache ep name s none_here in
      let gone' = looked_up-id cache ep name s' none_here' in
      let status = fetch_endpoint_status_from_agent_info-has cache id s x in
      let status' = fetch_endpoint_status_from_agent_info-has cache id s' x in
      (
        status.0
            ∙ unchanged cache (carries id) (has_ip x) name is s s' agents m m' gone gone'
            ∙ sym status'.0,
        status.1
            ∙ unchanged cache (carries id) (is_at x) name is s s' agents m m' gone gone'
            ∙ sym status'.1,
      )

  ips-unchanged :
      (s s' : State) (agents : Agents) (ep : Endpoint) (name : String) (is : List Iface)
      → Mirrors cache s agents
      → Mirrors cache s' ((name, is) ∷ drop name agents)
      → any (λ i. i.agent_name == name) (ifaces_at cache ep.status.ips s) ≡ false
      → any (λ i. i.agent_name == name) (ifaces_at cache ep.status.ips s') ≡ false
      → SameStatus
          (some (fetch_endpoint_status_by_ip cache ep.status.ips s))
          (some (fetch_endpoint_status_by_ip cache ep.status.ips s'))
  unfolding fetch_endpoint_status_by_ip
  ips-unchanged s s' agents ep name is m m' gone gone' x = (
    refl,
    has-sort_strings x (fold (insert_agents_at cache s) [] ep.status.ips)
        ∙ agents-unchanged cache x name is s s' agents ep.status.ips [] [] m m' gone gone' refl
        ∙ sym (has-sort_strings x (fold (insert_agents_at cache s') [] ep.status.ips)),
  )

  expect_status-unchanged :
      (s s' : State) (agents : Agents) (ep : Endpoint) (name : String) (is : List Iface)
      → Mirrors cache s agents
      → Mirrors cache s' ((name, is) ∷ drop name agents)
      → any (λ i. i.agent_name == name) (looked_up cache ep s) ≡ false
      → any (λ i. i.agent_name == name) (looked_up cache ep s') ≡ false
      → SameStatus (expect_status cache ep s) (expect_status cache ep s')
  unfolding expect_status
  expect_status-unchanged s s' agents ep name is m m' none_here none_here' =
      elim (Bool-cases (ep.spec.type == endpoint_static)) [
        | inl static ↦ rw static tt
        | inr moving ↦ rw moving (elim (Bool-cases (ep.spec.type == endpoint_static_ip)) [
          | inr by_id ↦ rw by_id (id-unchanged s s' agents ep name is m m' none_here none_here')
          | inl by_ip ↦ rw by_ip (elim (Bool-cases (is_nil ep.status.ips)) [
            | inl empty ↦ rw empty tt
            | inr some_ip ↦ rw some_ip (
                ips-unchanged s s' agents ep name is m m'
                  (looked_up-ips cache ep name s by_ip none_here)
                  (looked_up-ips cache ep name s' by_ip none_here'))
          ])
        ])
      ]

  -- If, after any events of agents, an agent reports again, and an endpoint of the list is not
  -- enqueued, then the status that Reconcile expects of it, by its external ID or, for an endpoint
  -- with static addresses, by these, has the addresses and agents that it had; and no status is
  -- expected where none was.
  pub update_agent_info-enqueues :
      (s s' : State) (agents : Agents) (before after : List Endpoint) (ep : Endpoint)
      (info old : AgentInfo) (is : List Iface) (queue : List NamespacedName)
      → Reachable cache s agents
      → old.name ≡ info.name
      → IsReport info.name is
      → ifaces_of info ≡ some is
      → update_agent_info cache (before ++ ep ∷ after) info old s ≡ some (s', queue)
      → any (is_request (request_of ep)) queue ≡ false
      → SameStatus (expect_status cache ep s) (expect_status cache ep s')
  update_agent_info-enqueues s s' agents before after ep info old is queue r same report read runs
        absent =
      let eps = before ++ ep ∷ after in
      let first = enqueue_endpoints_on_agent_locked cache eps info.name s in
      let second = enqueue_endpoints_on_agent_locked cache eps info.name s' in
      let neither : any (is_request (request_of ep)) (first ++ second) ≡ false =
        ap (any (is_request (request_of ep))) (queued eps info old is queue s s' read runs)
        ∙ absent in
      let halves = any-append (is_request (request_of ep)) first second in
      expect_status-unchanged s s' agents ep info.name is (Reachable-Mirrors cache s agents r)
        (Reachable-Mirrors cache s' ((info.name, is) ∷ drop info.name agents)
          (updates eps info old is queue r same report read runs))
        (not_enqueued cache before after ep info.name s (ground (arith, neither, halves)))
        (not_enqueued cache before after ep info.name s' (ground (arith, neither, halves)))
