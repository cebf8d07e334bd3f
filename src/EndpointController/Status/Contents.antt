-- ===== src/EndpointController/Status/Contents.antt =====
-- What the status of an endpoint has, in terms of the interfaces in the cache.
use everoute.Common.{
  ◌≡◌, refl, ◌∙◌, String, Bool, true, false, ◌&&◌, ◌||◌, not, List, [], ◌∷◌, any, fold, ◌==◌,
  string_eq, arith,
}
use everoute.Common.Dict.{Dict, keys}
use everoute.Common.Set.{has, has-add, has-insert_all}
use everoute.Labels.{is_nil}
use everoute.Utils.Equality.{has-sort_strings}
use everoute.EndpointController.{
  Iface, ExternalId, Indexer, external_id_string, external_id_index_func,
}
use everoute.EndpointController.Status.{
  Sets, collect, empty_sets, combine, fetch_endpoint_status_from_agent_info,
}

-- the interface has the address, and the interface is at the agent with some address
abbrev pub has_ip : String → Iface → Bool
has_ip ip i = has ip (keys i.ip_last_update_time_map)

abbrev pub is_at : String → Iface → Bool
is_at agent i = not (is_nil i.ip_last_update_time_map) && i.agent_name == agent

no_ip : {V : Type 0} (ip : String) (m : Dict String V) → is_nil m ≡ true → has ip (keys m) ≡ false
unfolding has
no_ip ip [] h = refl
no_ip ip ((k, v) ∷ m) h = absurd (ground (arith, h))

collect-ips :
    (ip : String) (sets : Sets) (is : List Iface)
    → has ip (fold collect sets is).ips ≡ (any (has_ip ip) is || has ip sets.ips)
collect-ips ip sets [] = refl
collect-ips ip sets (i ∷ is) = ground (
  arith,
  collect-ips ip (collect sets i) is,
  no_ip ip i.ip_last_update_time_map,
  has-insert_all ip sets.ips (keys i.ip_last_update_time_map),
)

collect-agents :
    (agent : String) (sets : Sets) (is : List Iface)
    → has agent (fold collect sets is).agents ≡ (any (is_at agent) is || has agent sets.agents)
collect-agents agent sets [] = refl
collect-agents agent sets (i ∷ is) =
    ground (arith, collect-agents agent (collect sets i) is, has-add i.agent_name agent sets.agents)

combine-ips : (ip : String) (is : List Iface) → has ip (combine is).ips ≡ any (has_ip ip) is
unfolding combine has
combine-ips ip [] = refl
combine-ips ip (i ∷ is) = ground (
  arith,
  has-sort_strings ip (fold collect empty_sets (i ∷ is)).ips,
  collect-ips ip empty_sets (i ∷ is),
)

combine-agents :
    (agent : String) (is : List Iface) → has agent (combine is).agents ≡ any (is_at agent) is
unfolding combine has
combine-agents agent [] = refl
combine-agents agent (i ∷ is) = ground (
  arith,
  has-sort_strings agent (fold collect empty_sets (i ∷ is)).agents,
  collect-agents agent empty_sets (i ∷ is),
)

-- the interface carries the external ID
abbrev pub carries : ExternalId → Iface → Bool
carries id i = has (external_id_string id) (external_id_index_func i)

module _ (cache : Indexer) where
  -- The status of an external ID has the addresses of the cached interfaces that carry the ID, and
  -- the agents of those that have an address.
  pub fetch_endpoint_status_from_agent_info-has :
      (id : ExternalId) (s : cache.State) (x : String)
      → (has x (fetch_endpoint_status_from_agent_info cache id s).ips
          ≡ any (λ i. carries id i && has_ip x i) (cache.list s))
        × (has x (fetch_endpoint_status_from_agent_info cache id s).agents
            ≡ any (λ i. carries id i && is_at x i) (cache.list s))
  unfolding fetch_endpoint_status_from_agent_info
  fetch_endpoint_status_from_agent_info-has id s x =
      let found = cache.by_index external_id_index_func (external_id_string id) s in
      (
        combine-ips x found
            ∙ cache.any-by_index (has_ip x) external_id_index_func (external_id_string id) s,
        combine-agents x found
            ∙ cache.any-by_index (is_at x) external_id_index_func (external_id_string id) s,
      )
