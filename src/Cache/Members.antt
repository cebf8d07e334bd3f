-- ===== src/Cache/Members.antt =====
-- What the loops over the members of a group leave in a map of items: an address is there if a
-- member has it, with the agents of the members that have it.
use everoute.Common.{
  ◌≡◌, refl, String, Bool, ◌&&◌, ◌||◌, List, [], ◌∷◌, fold, any, ◌==◌, string_eq, arith,
}
use everoute.Common.Dict.{lookup, is_some, lookup-insert}
use everoute.Common.Set.{has, insert_all, has-insert_all}
use everoute.Api.{GroupMember, NamedPort}
use everoute.Cache.{Items, item_or_new, add_address, add_member, get_ip_cidr, append_ip_block_ports}

-- the agents of an address, none for an address that is not there
abbrev pub agents_at : String → Items → List String
agents_at cidr items = (item_or_new (lookup cidr items)).agent_ref

abbrev pub present : String → Items → Bool
present cidr items = is_some (lookup cidr items)

-- whether a member has the address, and whether it has it at the agent
abbrev pub serves : String → GroupMember → Bool
serves cidr m = any (λ ip. get_ip_cidr ip == cidr) m.ips

abbrev pub serves_at : String → String → GroupMember → Bool
serves_at cidr agent m = serves cidr m && has agent m.endpoint_agent

add_address-agents :
    (agents : List String) (ports : List NamedPort) (items : Items) (ip cidr agent : String)
    → has agent (agents_at cidr (add_address agents ports items ip))
      ≡ (get_ip_cidr ip == cidr && has agent agents || has agent (agents_at cidr items))
unfolding add_address
add_address-agents agents ports items ip cidr agent =
    let item = item_or_new (lookup (get_ip_cidr ip) items) in
    let new = record item {
      agent_ref = insert_all item.agent_ref agents;
      ports = append_ip_block_ports item.ports ports;
    } in
    ground (
      arith,
      lookup-insert (get_ip_cidr ip) cidr new items,
      has-insert_all agent item.agent_ref agents,
      string_eq.beq_iff (get_ip_cidr ip) cidr,
    )

add_address-present :
    (agents : List String) (ports : List NamedPort) (items : Items) (ip cidr : String)
    → present cidr (add_address agents ports items ip)
      ≡ (get_ip_cidr ip == cidr || present cidr items)
unfolding add_address
add_address-present agents ports items ip cidr =
    let item = item_or_new (lookup (get_ip_cidr ip) items) in
    let new = record item {
      agent_ref = insert_all item.agent_ref agents;
      ports = append_ip_block_ports item.ports ports;
    } in
    ground (arith, lookup-insert (get_ip_cidr ip) cidr new items)

addresses-agents :
    (agents : List String) (ports : List NamedPort) (items : Items) (ips : List String)
    (cidr agent : String)
    → has agent (agents_at cidr (fold (add_address agents ports) items ips)) ≡ (
        any (λ ip. get_ip_cidr ip == cidr) ips && has agent agents
        || has agent (agents_at cidr items))
addresses-agents agents ports items [] cidr agent = refl
addresses-agents agents ports items (ip ∷ ips) cidr agent = ground (
  arith,
  addresses-agents agents ports (add_address agents ports items ip) ips cidr agent,
  add_address-agents agents ports items ip cidr agent,
)

addresses-present :
    (agents : List String) (ports : List NamedPort) (items : Items) (ips : List String)
    (cidr : String)
    → present cidr (fold (add_address agents ports) items ips)
      ≡ (any (λ ip. get_ip_cidr ip == cidr) ips || present cidr items)
addresses-present agents ports items [] cidr = refl
addresses-present agents ports items (ip ∷ ips) cidr = ground (
  arith,
  addresses-present agents ports (add_address agents ports items ip) ips cidr,
  add_address-present agents ports items ip cidr,
)

-- the same for all members of a list
pub members-agents :
    (items : Items) (ms : List GroupMember) (cidr agent : String)
    → has agent (agents_at cidr (fold add_member items ms))
      ≡ (any (serves_at cidr agent) ms || has agent (agents_at cidr items))
unfolding add_member
members-agents items [] cidr agent = refl
members-agents items (m ∷ ms) cidr agent = ground (
  arith,
  members-agents (add_member items m) ms cidr agent,
  addresses-agents m.endpoint_agent m.ports items m.ips cidr agent,
)

pub members-present :
    (items : Items) (ms : List GroupMember) (cidr : String)
    → present cidr (fold add_member items ms) ≡ (any (serves cidr) ms || present cidr items)
unfolding add_member
members-present items [] cidr = refl
members-present items (m ∷ ms) cidr = ground (
  arith,
  members-present (add_member items m) ms cidr,
  addresses-present m.endpoint_agent m.ports items m.ips cidr,
)

-- the same from the empty map
pub members-agents_nil :
    (ms : List GroupMember) (cidr agent : String)
    → has agent (agents_at cidr (fold add_member [] ms)) ≡ any (serves_at cidr agent) ms
unfolding has lookup
members-agents_nil ms cidr agent = ground (arith, members-agents [] ms cidr agent)

pub members-present_nil :
    (ms : List GroupMember) (cidr : String)
    → present cidr (fold add_member [] ms) ≡ any (serves cidr) ms
unfolding lookup
members-present_nil ms cidr = ground (arith, members-present [] ms cidr)
