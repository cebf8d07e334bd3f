-- ===== src/Reconciler/Peers.antt =====
-- What the peers of a policy give a rule: its groups are groups that the policy refers to, and the
-- rule waits for such a group only.
use everoute.Common.{
  ℕ, ◌≡◌, refl, ap, String, Bool, true, ◌||◌, Option, none, some, List, [], ◌∷◌, string_eq, Result,
  ok, err, arith, ◌⊎◌, inl, inr, beq_refl,
}
use everoute.Common.Results.{Returns, Returns->>=}
use everoute.Common.Dict.{Dict, lookup, is_some, lookup-insert, lookup-nil}
use everoute.Api.{IpBlock, SecurityPolicyPeer, ApplyToPeer, EndpointGroup}
use everoute.Cache.{Blocks, Items}
use everoute.Cache.Group.{GroupCache, list_group_ip_blocks}
use everoute.Cache.Rule.Count.{NoNil}
use everoute.Generator.{Digest, peer_as_endpoint_group, applied_as_endpoint_group}
use everoute.Generator.Index.{named, in_peers, in_applied}
use everoute.Reconciler.{
  NetLib, PolicyError, bad_block, group_not_found, bad_ports, Found, parse_ip_block, add_listed,
  add_group,
}
use everoute.Reconciler.Complete.{
  to_blocks, any_ip, side_of, applied_peers, add_static, switch_peer, add_peer, add_peers,
  get_peers_groups_and_ip_blocks, peers_side,
}

-- an error that names no group but those that are needed
abbrev pub Waits : {E : Type 0} → (String → Bool) → PolicyError E → Type 0
Waits need (bad_block e) = Unit
Waits need (group_not_found g) = need g ≡ true
Waits need (bad_ports e) = Unit

-- every group of the map is needed
abbrev pub Needed : (String → Bool) → Dict String ℕ → Type 0
Needed need groups = (g : String) → is_some (lookup g groups) ≡ true → need g ≡ true

-- The groups of a side are needed, and a side with a nil item has no group.
pub record IsSide (need : String → Bool) (groups : Dict String ℕ) (blocks : Blocks) : Type 0 where
  pub groups_needed : Needed need groups
  pub nil_or_groups : (groups ≡ []) ⊎ NoNil blocks

pub to_blocks-NoNil : (items : Items) → NoNil (to_blocks items)
unfolding lookup
to_blocks-NoNil [] ip h = absurd (ground arith)
to_blocks-NoNil ((j, item) ∷ items) ip h = ground (arith, to_blocks-NoNil items ip)

pub any_ip-IsSide : (need : String → Bool) → IsSide need any_ip.0 any_ip.1
any_ip-IsSide need = record {
  groups_needed = λ g h. absurd (ground (arith, lookup-nil {V = ℕ} g));
  nil_or_groups = inl refl;
}

add_listed-Returns :
    (E : Type 0) (need : String → Bool) (group : String) (listed : Option (ℕ × Items))
    (found : Found)
    → need group ≡ true
    → Needed need found.0
    → Returns (Waits {E = E} need) (λ f. Needed need f.0) (add_listed group listed found)
unfolding add_listed
add_listed-Returns E need group none found needed h = needed
add_listed-Returns E need group (some (revision, items)) (groups, blocks) needed h =
    λ g k. ground (arith, h g, lookup-insert group g revision groups, string_eq.beq_iff group g)

pub add_group-Returns :
    (E : Type 0) (need : String → Bool) (cache : GroupCache) (group : String) (found : Found)
    → need group ≡ true
    → Needed need found.0
    → Returns (Waits {E = E} need) (λ f. Needed need f.0) (add_group cache group found)
unfolding add_group
add_group-Returns E need cache group found needed h =
    add_listed-Returns E need group (list_group_ip_blocks cache group) found needed h

module _ (lib : NetLib) (digest : Digest) (cache : GroupCache) (need : String → Bool) where
  open lib use {NetError}

  add_static-Returns :
      (nets : Result NetError (List lib.Net)) (found : Found)
      → Needed need found.0
      → Returns (Waits need) (λ f. Needed need f.0) (add_static lib digest cache nets found)
  unfolding add_static
  add_static-Returns (err e) found h = tt
  add_static-Returns (ok nets) (groups, blocks) h = h

  switch_peer-Returns :
      (block : Option IpBlock) (group : Option EndpointGroup) (found : Found)
      → ((g : String) → named g group ≡ true → need g ≡ true)
      → Needed need found.0
      → Returns (Waits need) (λ f. Needed need f.0) (switch_peer lib digest cache block group found)
  unfolding switch_peer
  switch_peer-Returns (some b) group found wanted h =
      add_static-Returns (parse_ip_block lib b) found h
  switch_peer-Returns none none found wanted h = h
  switch_peer-Returns none (some group) found wanted h =
      add_group-Returns NetError need cache group.name found
        (wanted group.name (beq_refl group.name)) h

  add_peers-Returns :
      (namespace : String) (ps : List SecurityPolicyPeer) (found : Found)
      → ((g : String) → in_peers digest namespace g ps ≡ true → need g ≡ true)
      → Needed need found.0
      → Returns (Waits need) (λ f. Needed need f.0) (add_peers lib digest cache namespace ps found)
  unfolding add_peers add_peer
  add_peers-Returns namespace [] found wanted h = h
  add_peers-Returns namespace (p ∷ ps) found wanted h =
      Returns->>= (Waits need) (λ f. Needed need f.0) (λ f. Needed need f.0)
        (add_peer lib digest cache namespace p found) (add_peers lib digest cache namespace ps)
        (switch_peer-Returns p.ip_block (peer_as_endpoint_group digest namespace p) found
          (λ g k. wanted g (ground (arith, k))) h)
        (λ f k. add_peers-Returns namespace ps f (λ g i. wanted g (ground (arith, i))) k)

  -- a side has the groups of its peers
  pub peers_side-Returns :
      (namespace : String) (ps : List SecurityPolicyPeer)
      → ((g : String) → in_peers digest namespace g ps ≡ true → need g ≡ true)
      → Returns (Waits need) (λ s. IsSide need s.0 s.1) (peers_side lib digest cache namespace ps)
  unfolding peers_side get_peers_groups_and_ip_blocks
  peers_side-Returns namespace [] wanted = any_ip-IsSide need
  peers_side-Returns namespace (p ∷ ps) wanted =
      Returns->>= (Waits need) (λ f. Needed need f.0) (λ s. IsSide need s.0 s.1)
        (get_peers_groups_and_ip_blocks lib digest cache namespace (p ∷ ps))
        (λ found. ok (side_of found))
        (add_peers-Returns namespace (p ∷ ps) ([], []) wanted
          (λ g k. absurd (ground (arith, lookup-nil {V = ℕ} g))))
        (λ found k. record { groups_needed = k; nil_or_groups = inr (to_blocks-NoNil found.1) })

-- the peers of appliedTo have the groups of the index
pub in_peers-applied :
    (digest : Digest) (namespace g : String) (others : List ApplyToPeer)
    → in_peers digest namespace g (applied_peers namespace others)
      ≡ in_applied digest namespace g others
unfolding applied_as_endpoint_group
in_peers-applied digest namespace g [] = refl
in_peers-applied digest namespace g (a ∷ others) =
    ap (λ b. named g (applied_as_endpoint_group digest namespace a) || b)
      (in_peers-applied digest namespace g others)
