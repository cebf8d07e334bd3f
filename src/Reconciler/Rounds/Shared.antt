-- ===== src/Reconciler/Rounds/Shared.antt =====
-- Two members of a group with one address at one agent: AgentRef of pkg/agent/controller/policy/cache
-- is a set, so that the rule counts them once.
use everoute.Common.{
  ℕ, ◌≡◌, refl, ap, ◌∙◌, String, true, false, some, none, List, [], ◌∷◌, fold, ◌==◌, nat_eq,
  string_eq, ok, arith, beq_refl,
}
use everoute.Common.Dict.{lookup, insert, delete, values, lookup-insert}
use everoute.Common.Set.{has, add, insert_all}
use everoute.Api.{EndpointReference, GroupMember, GroupMembersPatch, NamedPort, reference_eq}
use everoute.Cache.{
  Items, IpBlockItem, new_ip_block_item, add_member, add_address, get_ip_cidr,
  append_ip_block_ports, Blocks, next_revision,
}
use everoute.Cache.Members.{present}
use everoute.Cache.Group.{
  GroupCache, GroupPatch, GroupMembership, patches_of, next_patch, to_group_patch, apply_patch,
  patched, after_patch, patch_endpoints, list_group_ip_blocks,
}
use everoute.Cache.Rule.{apply_count_map}
use everoute.Cache.Rule.Count.{NoNil}
use everoute.Cache.Rule.Patch.{last_agent_deleted}
use everoute.Reconciler.Rounds.{to_blocks, rule_patch}

-- a member with one address at one agent
abbrev pub member : EndpointReference → String → String → List NamedPort → GroupMember
member reference agent ip ports = record {
  endpoint_reference = reference;
  endpoint_agent = agent ∷ [];
  ips = ip ∷ [];
  ports = ports;
}

-- the item of an address with one agent
abbrev item_of : String → List NamedPort → IpBlockItem
item_of agent ports = record new_ip_block_item { agent_ref = agent ∷ []; ports = ports }

one_member :
    (reference : EndpointReference) (agent ip : String) (ports : List NamedPort)
    → fold add_member [] (member reference agent ip ports ∷ [])
      ≡ (get_ip_cidr ip, item_of agent (append_ip_block_ports [] ports)) ∷ []
unfolding add_member add_address insert lookup insert_all add has
one_member reference agent ip ports = refl

two_members :
    (a b : EndpointReference) (agent ip : String) (ports ports' : List NamedPort)
    → fold add_member [] (member a agent ip ports ∷ member b agent ip ports' ∷ [])
      ≡ (
        get_ip_cidr ip,
        item_of agent (append_ip_block_ports (append_ip_block_ports [] ports) ports'),
      )
        ∷ []
unfolding add_member add_address insert lookup insert_all add has
two_members a b agent ip ports ports' = rw (beq_refl (get_ip_cidr ip), beq_refl agent) refl

-- the patch that removes a member
abbrev pub removal : String → ℕ → GroupMember → GroupMembersPatch
removal name revision m = record {
  name = name;
  applied_to_group_members = record { name = name; revision = revision };
  added_group_members = [];
  updated_group_members = [];
  removed_group_members = m ∷ [];
}

-- the group with the two members
abbrev pub two : String → ℕ → GroupMember → GroupMember → GroupMembership
two name revision m n = record {
  name = name;
  revision = revision;
  endpoints = (m.endpoint_reference, m) ∷ (n.endpoint_reference, n) ∷ [];
}

one_block-NoNil : (cidr : String) (item : IpBlockItem) → NoNil (to_blocks ((cidr, item) ∷ []))
unfolding lookup
one_block-NoNil cidr item ip = ground arith

one_block-lookup :
    (cidr : String) (item : IpBlockItem)
    → lookup cidr (to_blocks ((cidr, item) ∷ [])) ≡ some (some item)
unfolding lookup
one_block-lookup cidr item = rw (beq_refl cidr) refl

is_there : (cidr : String) (item : IpBlockItem) → present cidr ((cidr, item) ∷ []) ≡ true
unfolding lookup
is_there cidr item = rw (beq_refl cidr) refl

-- The removal of one member takes the address out of the blocks,
lost :
    (a b : EndpointReference) (agent ip : String) (ports ports' : List NamedPort)
    → (result : Blocks) × (apply_count_map
          (to_blocks (fold add_member [] (member a agent ip ports ∷ member b agent ip ports' ∷ [])))
          []
          (to_blocks (fold add_member [] (member b agent ip ports' ∷ [])))
        ≡ some result)
      × (lookup (get_ip_cidr ip) result ≡ none)
lost a b agent ip ports ports' =
    let cidr = get_ip_cidr ip in
    let item = item_of agent (append_ip_block_ports (append_ip_block_ports [] ports) ports') in
    rw (two_members a b agent ip ports ports', one_member b agent ip ports')
      (last_agent_deleted (to_blocks ((cidr, item) ∷ [])) cidr agent item
        (item_of agent (append_ip_block_ports [] ports')) (one_block-NoNil cidr item)
        (one_block-lookup cidr item) refl refl refl)

-- and the other one stays in the group.
left :
    (name : String) (revision : ℕ) (m n : GroupMember)
    → (m.endpoint_reference == n.endpoint_reference) ≡ false
    → (patched (two name revision m n) revision (removal name revision n)).endpoints
      ≡ (m.endpoint_reference, m) ∷ []
unfolding patch_endpoints delete
left name revision m n apart = rw (apart, beq_refl n.endpoint_reference) refl

-- what the cache answers about a group whose next patch is stored
next_patch-stored :
    (c : GroupCache) (name : String) (m : GroupMembership) (source : GroupMembersPatch)
    → lookup name c.members ≡ some m
    → lookup m.revision (patches_of c name) ≡ some source
    → next_patch c name ≡ some (to_group_patch name m source)
unfolding next_patch
next_patch-stored c name m source known stored = ground (arith, known, stored)

apply_patch-stored :
    (c : GroupCache) (name : String) (m : GroupMembership) (source : GroupMembersPatch)
    → lookup name c.members ≡ some m
    → lookup m.revision (patches_of c name) ≡ some source
    → apply_patch c (to_group_patch name m source) ≡ ok (after_patch c name m source)
unfolding apply_patch to_group_patch
apply_patch-stored c name m source known stored = ground (arith, known, stored)

listed :
    (c : GroupCache) (name : String) (m : GroupMembership)
    → lookup name c.members ≡ some m
    → list_group_ip_blocks c name ≡ some (m.revision, fold add_member [] (values m.endpoints))
unfolding list_group_ip_blocks
listed c name m known = ground (arith, known)

listed_after :
    (c : GroupCache) (name : String) (m : GroupMembership) (source : GroupMembersPatch)
    → list_group_ip_blocks (after_patch c name m source) name
      ≡ some (
        next_revision m.revision,
        fold add_member [] (values (patched m m.revision source).endpoints),
      )
unfolding after_patch
listed_after c name m source =
    listed (after_patch c name m source) name (patched m m.revision source) (
      ground
        (arith, lookup-insert name name (patched m m.revision source) c.members, beq_refl name))

pub shared_address_lost :
    (c : GroupCache) (name : String) (revision : ℕ) (a b : EndpointReference) (agent ip : String)
    (ports ports' : List NamedPort)
    → (a == b) ≡ false
    → lookup name c.members
      ≡ some (two name revision (member a agent ip ports) (member b agent ip ports'))
    → lookup revision (patches_of c name) ≡ some (removal name revision (member b agent ip ports'))
    → (patch : GroupPatch) × (items : Items) × (result : Blocks) × (c' : GroupCache)
      × (items' : Items) × (next_patch c name ≡ some patch)
      × (list_group_ip_blocks c name ≡ some (revision, items))
      × (apply_count_map (to_blocks items) (rule_patch patch).add (rule_patch patch).del
          ≡ some result)
      × (lookup (get_ip_cidr ip) result ≡ none)
      × (apply_patch c patch ≡ ok c')
      × (list_group_ip_blocks c' name ≡ some (next_revision revision, items'))
      × (present (get_ip_cidr ip) items' ≡ true)
unfolding to_group_patch
shared_address_lost c name revision a b agent ip ports ports' apart known stored =
    let first = member a agent ip ports in
    let second = member b agent ip ports' in
    let m = two name revision first second in
    let source = removal name revision second in
    let patch = to_group_patch name m source in
    let (result, returned, gone) = lost a b agent ip ports ports' in
    let kept =
      ap (λ e. fold add_member [] (values e)) (left name revision first second apart)
      ∙ one_member a agent ip ports in
    (
      patch,
      fold add_member [] (first ∷ second ∷ []),
      result,
      after_patch c name m source,
      fold add_member [] (values (patched m revision source).endpoints),
      next_patch-stored c name m source known stored,
      listed c name m known,
      returned,
      gone,
      apply_patch-stored c name m source known stored,
      listed_after c name m source,
      rw kept (is_there (get_ip_cidr ip) _),
    )
