-- ===== src/GroupController/Select/Enqueued.antt =====
-- The groups that an event of an endpoint enqueues are those that have it as a member.
use everoute.Common.{
  ◌≡◌, ◌≢◌, refl, ap, ◌∙◌, String, Bool, true, false, ◌&&◌, ◌||◌, none, some, List, [], ◌∷◌, ◌++◌,
  any, All, ◌==◌, string_eq, if◌then◌else◌, arith, Result, ok, err, inl, inr, ◌⊎◌, All-map,
}
use everoute.Common.Results.{Returns}
use everoute.Common.Set.{has, add, has-add}
use everoute.Api.{Endpoint, EndpointGroup}
use everoute.Generator.{all_ep_with_named_port}
use everoute.GroupController.Select.{
  Namespace, Reads, matched_endpoints, is_skipped, relates, insert_related,
  filter_endpoint_groups_by_endpoint,
}
use everoute.GroupController.Select.Events.{Anything, IsCoherent, IsMatched, matched_endpoints-All}

Returns-map :
    {A : Type 0} {E : Type 0} (P Q : A → Type 0)
    → ((a : A) → P a → Q a)
    → (r : Result E A) → Returns Anything P r
    → Returns Anything Q r
Returns-map P Q f (ok a) h = f a h
Returns-map P Q f (err e) h = tt

has-insert_related :
    (p : EndpointGroup → Bool) (set : List String) (groups : List EndpointGroup) (name : String)
    → has name (insert_related p set groups)
      ≡ (any (λ g. p g && g.name == name) groups || has name set)
has-insert_related p set [] name = refl
has-insert_related p set (g ∷ rest) name = ground (
  arith,
  has-insert_related p (if p g then add g.name set else set) rest name,
  has-add g.name name set,
)

any-middle :
    (p : EndpointGroup → Bool) (before after : List EndpointGroup) (group : EndpointGroup)
    → p group ≡ true
    → any p (before ++ group ∷ after) ≡ true
any-middle p [] after group h = ground (arith, h)
any-middle p (g ∷ before) after group h = ground (arith, any-middle p before after group h)

has-filter :
    (client : Reads) (before after : List EndpointGroup) (group : EndpointGroup) (ep : Endpoint)
    (ns : Namespace)
    → client.list_groups ≡ ok (before ++ group ∷ after)
    → client.get_namespace ep.namespace ≡ ok ns
    → relates client ns.labels ep group ≡ true
    → has group.name (filter_endpoint_groups_by_endpoint client ep) ≡ true
unfolding filter_endpoint_groups_by_endpoint
has-filter client before after group ep ns listed read related =
    let p = relates client ns.labels ep in
    let same : filter_endpoint_groups_by_endpoint client ep
        ≡ insert_related p [] (before ++ group ∷ after) =
      ground (arith, listed, read) in
    ap (has group.name) same
    ∙ ground (
      arith,
      has-insert_related p [] (before ++ group ∷ after) group.name,
      any-middle (λ g. p g && g.name == group.name) before after group
          (ground (arith, related, string_eq.beq_iff group.name group.name)),
    )

IsMatched-has :
    (client : Reads) (coherent : IsCoherent client) (before after : List EndpointGroup)
    (group : EndpointGroup) (ep : Endpoint)
    → client.list_groups ≡ ok (before ++ group ∷ after)
    → IsMatched client coherent group ep
    → is_skipped (group.name == all_ep_with_named_port) ep ≡ false
    → has group.name (filter_endpoint_groups_by_endpoint client ep) ≡ true
unfolding is_skipped relates
IsMatched-has client coherent before after group ep listed (inl h) kept =
    has-filter client before after group ep h.1.0 listed h.1.1 (ground (arith, h.0, kept))
IsMatched-has client coherent before after group ep listed (inr h) kept =
    has-filter client before after group ep h.0.0 listed h.0.1
      (ground (arith, h.0.2, h.0.3, h.1, kept))

-- When a client that reads one state of the cluster finds the endpoints of a group that does not set
-- both a namespace and a namespace selector, nor the empty namespace, every endpoint that
-- fetchCurrGroupMembers makes a member of it has the group among those that
-- filterEndpointGroupsByEndpoint enqueues.
pub matched_endpoints-enqueued :
    (client : Reads) (before after : List EndpointGroup) (group : EndpointGroup)
    → IsCoherent client
    → client.list_groups ≡ ok (before ++ group ∷ after)
    → group.spec.namespace ≢ some ""
    → (group.spec.namespace ≡ none) ⊎ (group.spec.namespace_selector ≡ none)
    → Returns Anything
        (All (λ ep.
          is_skipped (group.name == all_ep_with_named_port) ep ≡ false
          → has group.name (filter_endpoint_groups_by_endpoint client ep) ≡ true))
        (matched_endpoints client group)
matched_endpoints-enqueued client before after group coherent listed space one =
    Returns-map (All (IsMatched client coherent group))
      (All (λ ep.
        is_skipped (group.name == all_ep_with_named_port) ep ≡ false
        → has group.name (filter_endpoint_groups_by_endpoint client ep) ≡ true))
      (All-map (IsMatched client coherent group)
        (λ ep.
          is_skipped (group.name == all_ep_with_named_port) ep ≡ false
          → has group.name (filter_endpoint_groups_by_endpoint client ep) ≡ true)
        (λ ep h. IsMatched-has client coherent before after group ep listed h))
      (matched_endpoints client group) (matched_endpoints-All client coherent group space one)
