-- ===== src/Generator/Reconcile.antt =====
-- GroupGenerateReconcile and the event handlers of pkg/controller/policy/group_generator.go. The
-- answers of the Kubernetes client are a parameter.
use everoute.Common.{
  ◌≡◌, refl, ◌∙◌, String, Bool, true, false, ◌||◌, Option, none, some, List, [], ◌∷◌, ◌++◌,
  string_eq, arith, Result, ok, err, All,
}
use everoute.Common.Set.{has}
use everoute.Common.Dict.{is_some}
use everoute.Api.{SecurityPolicy, EndpointGroup}
use everoute.Generator.{Digest, endpoint_group_index, get_endpoint_group_from_security_policy}
use everoute.Generator.Index.{refers, endpoint_group_index-refers}
use everoute.Generator.Lookup.{get_endpoint_group-indexed}

-- List by the index, and Get, where `none` is the error NotFound. Delete and Create may fail; an
-- error that the code ignores (NotFound, AlreadyExists) is no failure.
pub record Client (E : Type 0) : Type 0 where
  pub list : String → Result E (List SecurityPolicy)
  pub get : String → Result E (Option EndpointGroup)
  pub delete_failure : String → Option E
  pub create_failure : Option EndpointGroup → Option E

-- a call of the client that writes; the argument of Create may be nil
pub data Write : Type 0 where
  deletes : String → Write
  creates : Option EndpointGroup → Write

-- what is written, and the error that is returned
abbrev pub Outcome : Type 0 → Type 0
Outcome E = List Write × Option E

-- the switch over the number of policies
unfoldable pub write_group :
    {E : Type 0}
    → Digest
    → Client E
    → String
    → List SecurityPolicy
    → Option EndpointGroup
    → Outcome E
write_group digest c name [] none = ([], none)
write_group digest c name [] (some g) = (deletes name ∷ [], c.delete_failure name)
write_group digest c name (policy ∷ rest) none =
    let group = get_endpoint_group_from_security_policy digest policy name in
    (creates group ∷ [], c.create_failure group)
write_group digest c name (policy ∷ rest) (some g) = ([], none)

unfoldable pub group_generate_reconcile : {E : Type 0} → Digest → Client E → String → Outcome E
unfolding write_group
group_generate_reconcile digest c name = elim (c.list name) [
  | err e ↦ ([], some e)
  | ok policies ↦ elim (c.get name) [
    | err e ↦ ([], some e)
    | ok found ↦ write_group digest c name policies found
  ]
]

-- addSecurityPolicy and deleteSecurityPolicy: the groups that are queued
unfoldable pub policy_requests : Digest → SecurityPolicy → List String
policy_requests digest policy = endpoint_group_index digest policy

unfoldable pub update_requests : Digest → SecurityPolicy → SecurityPolicy → List String
update_requests digest new old = endpoint_group_index digest new ++ endpoint_group_index digest old

has-append :
    (name : String) (xs ys : List String) → has name (xs ++ ys) ≡ (has name xs || has name ys)
unfolding has
has-append name [] ys = refl
has-append name (x ∷ xs) ys = ground (arith, has-append name xs ys)

-- An update of a policy queues exactly the groups that its new or its old version refers to.
pub update_requests-refers :
    (digest : Digest) (new old : SecurityPolicy) (name : String)
    → has name (update_requests digest new old) ≡ (refers digest new name || refers digest old name)
unfolding update_requests
update_requests-refers digest new old name = ground (
  arith,
  has-append name (endpoint_group_index digest new) (endpoint_group_index digest old),
  endpoint_group_index-refers digest new name,
  endpoint_group_index-refers digest old name,
)

-- len(policyList.Items) != 0
abbrev pub any_policy : List SecurityPolicy → Bool
any_policy [] = false
any_policy (p ∷ ps) = true

-- the writes that bring the group to what the policies ask for
pub data Converges (name : String) : Bool → Bool → List Write → Type 0 where
  keeps : (b : Bool) → Converges name b b []
  removes : Converges name false true (deletes name ∷ [])
  generates :
      (g : EndpointGroup) → g.name ≡ name → Converges name true false (creates (some g) ∷ [])

reconcile-write_group :
    {E : Type 0} (digest : Digest) (c : Client E) (name : String) (policies : List SecurityPolicy)
    (found : Option EndpointGroup)
    → c.list name ≡ ok policies
    → c.get name ≡ ok found
    → group_generate_reconcile digest c name ≡ write_group digest c name policies found
unfolding group_generate_reconcile
reconcile-write_group digest c name policies found listed got = ground (arith, listed, got)

-- When List returns policies that the index lists under the name, and Get succeeds, the reconciler
-- creates a group of the name if there are policies and no group, deletes the group if there are
-- no policies, and writes nothing else; it never creates a nil group.
pub group_generate_reconcile-Converges :
    {E : Type 0} (digest : Digest) (c : Client E) (name : String) (policies : List SecurityPolicy)
    (found : Option EndpointGroup)
    → c.list name ≡ ok policies
    → c.get name ≡ ok found
    → All (λ p. has name (endpoint_group_index digest p) ≡ true) policies
    → (writes : List Write) × (failure : Option E) × (group_generate_reconcile digest c name
        ≡ (writes, failure))
      × Converges name (any_policy policies) (is_some found) writes
unfolding write_group
group_generate_reconcile-Converges {E = E} digest c name policies found listed got indexed =
    let (writes, failure, written, converges) = write policies found indexed in
    (
      writes,
      failure,
      reconcile-write_group digest c name policies found listed got ∙ written,
      converges,
    )
  where
    write :
        (ps : List SecurityPolicy) (g : Option EndpointGroup)
        → All (λ p. has name (endpoint_group_index digest p) ≡ true) ps
        → (writes : List Write) × (failure : Option E) × (write_group digest c name ps g
            ≡ (writes, failure))
          × Converges name (any_policy ps) (is_some g) writes
    write [] none h = (_, _, refl, keeps false)
    write [] (some g) h = (_, _, refl, removes)
    write (p ∷ ps) (some g) h = (_, _, refl, keeps true)
    write (p ∷ ps) none h =
        let (g, found_it, same) = (get_endpoint_group-indexed digest p name).0 h.0 in
        (_, c.create_failure (some g), rw found_it refl, generates g same)
