-- ===== src/NetworkPolicy/Synced.antt =====
-- The SecurityPolicy of a NetworkPolicy after NetworkPolicyReconciler.Reconcile, on a server that
-- carries out the writes.
use mathlib.Core.Option
use everoute.Common.{
  ◌≡◌, ◌≢◌, refl, sym, ap, ◌∙◌, String, Option, none, some, [], Result, ok, err, arith,
}
use everoute.Api.{NamespacedName, SecurityPolicy, SecurityPolicySpec}
use everoute.GroupController.Select.{ReadError, not_found, failed}
use everoute.NetworkPolicy.{
  IntOrString, NetworkPolicy, PolicyServer, returns, Outcome, get_security_policy,
  security_policy_name, network_policy_reconcile, reconcile_found, write_security_policy,
  empty_network_policy, translated_spec, deleted,
}

-- a missing object is reported as such
abbrev pub found_or_not {ℓ} : {A : Type ℓ} → Option A → Result ReadError A
found_or_not none = err not_found
found_or_not (some a) = ok a

abbrev pub key_of : SecurityPolicy → NamespacedName
key_of policy = record { name = policy.name; namespace = policy.namespace }

abbrev pub request_of : NetworkPolicy → NamespacedName
request_of policy = record { name = policy.name; namespace = policy.namespace }

-- the SecurityPolicy of a request
abbrev pub policy_key : NamespacedName → NamespacedName
policy_key request = record {
  name = security_policy_name request.name;
  namespace = request.namespace;
}

-- Reads return what is stored, under the key that the object carries, and writes succeed and store:
-- Create where there is nothing, Update where there is an object. A write changes one key only.
pub record IsReliable (server : PolicyServer)
    (stored : server.State → NamespacedName → Option SecurityPolicy) : Type 0 where
  pub read :
      (s : server.State) (key : NamespacedName)
      → server.read_security_policy s key ≡ found_or_not (stored s key)
  pub read_key :
      (s : server.State) (key : NamespacedName) (policy : NetworkPolicy)
      → server.read_network_policy s key ≡ ok policy
      → request_of policy ≡ key
  pub stored_key :
      (s : server.State) (key : NamespacedName) (policy : SecurityPolicy)
      → stored s key ≡ some policy
      → key_of policy ≡ key
  pub create :
      (s : server.State) (policy : SecurityPolicy)
      → stored s (key_of policy) ≡ none
      → ((server.create policy s).1 ≡ none)
        × (stored (server.create policy s).0 (key_of policy) ≡ some policy)
  pub update :
      (s : server.State) (key : NamespacedName) (policy old : SecurityPolicy)
      → key_of policy ≡ key
      → stored s key ≡ some old
      → ((server.update policy s).1 ≡ none) × (stored (server.update policy s).0 key ≡ some policy)
  pub delete_found :
      (s : server.State) (key : NamespacedName) (old : SecurityPolicy)
      → stored s key ≡ some old
      → ((server.delete key s).1 ≡ none) × (stored (server.delete key s).0 key ≡ none)
  pub delete_missing :
      (s : server.State) (key : NamespacedName)
      → stored s key ≡ none
      → ((server.delete key s).1 ≡ some not_found) × (stored (server.delete key s).0 key ≡ none)
  pub others_create :
      (s : server.State) (policy : SecurityPolicy) (key : NamespacedName)
      → key ≢ key_of policy
      → stored (server.create policy s).0 key ≡ stored s key
  pub others_update :
      (s : server.State) (policy : SecurityPolicy) (key : NamespacedName)
      → key ≢ key_of policy
      → stored (server.update policy s).0 key ≡ stored s key
  pub others_delete :
      (s : server.State) (deleted_key key : NamespacedName)
      → key ≢ deleted_key
      → stored (server.delete deleted_key s).0 key ≡ stored s key

abbrev pub spec_of : SecurityPolicy → SecurityPolicySpec
spec_of policy = policy.spec

-- The spec that a NetworkPolicy asks for: nothing for a missing one, the translation for another,
-- and `none` where the translation panics.
abbrev pub expected :
    (IntOrString → String) → Option NetworkPolicy → Option (Option SecurityPolicySpec)
expected port_text none = some none
expected port_text (some policy) =
    Option.map (λ p. some (spec_of p)) (get_security_policy port_text policy)

get_security_policy-key :
    (port_text : IntOrString → String) (policy : NetworkPolicy) (new : SecurityPolicy)
    → get_security_policy port_text policy ≡ some new
    → key_of new ≡ policy_key (request_of policy)
unfolding get_security_policy
get_security_policy-key port_text policy new h = ground (arith, h)

mapped_spec :
    (o : Option SecurityPolicy) (wanted : Option SecurityPolicySpec)
    → Option.map (λ p. some (spec_of p)) o ≡ some wanted
    → (new : SecurityPolicy) × (o ≡ some new) × (some new.spec ≡ wanted)
mapped_spec none wanted h = ground (arith, h)
mapped_spec (some new) wanted h = (new, refl, ground (arith, h))

module _ (server : PolicyServer) (stored : server.State → NamespacedName → Option SecurityPolicy)
    (h : IsReliable server stored) where
  -- what Reconcile ends with: no error, and the spec that is stored
  abbrev EndsWith : NamespacedName → Option SecurityPolicySpec → server.State × Outcome → Type 0
  EndsWith key wanted end =
      (end.1 ≡ returns none) × (Option.map spec_of (stored end.0 key) ≡ wanted)

  delete-ends :
      (key : NamespacedName) (s : server.State) (old : Option SecurityPolicy)
      → stored s key ≡ old
      → EndsWith key none (deleted server (server.delete key s))
  delete-ends key s none e =
      let (ok_it, gone) = h.delete_missing s key e in ground (arith, ok_it, gone)
  delete-ends key s (some old) e =
      let (ok_it, gone) = h.delete_found s key old e in ground (arith, ok_it, gone)

  write-ends :
      (key : NamespacedName) (new : SecurityPolicy) (s : server.State) (old : Option SecurityPolicy)
      → key_of new ≡ key
      → stored s key ≡ old
      → EndsWith key
          (some new.spec)
          (write_security_policy server (some new) (server.read_security_policy s key) s)
  unfolding write_security_policy
  write-ends key new s none k e =
      let (ok_it, there) = h.create s new (ap (stored s) k ∙ e) in
      ground (arith, h.read s key, e, ok_it, sym (ap (stored (server.create new s).0) k) ∙ there)
  write-ends key new s (some old) k e =
      let (ok_it, there) =
        h.update s key (record old { spec = new.spec }) old (h.stored_key s key old e) e in
      ground (arith, h.read s key, e, ok_it, there)

  delete-keeps :
      (key other : NamespacedName) (s : server.State) (old : Option SecurityPolicy)
      → stored s key ≡ old
      → other ≢ key
      → stored (deleted server (server.delete key s)).0 other ≡ stored s other
  delete-keeps key other s none e d =
      ground (arith, (h.delete_missing s key e).0, h.others_delete s key other d)
  delete-keeps key other s (some old) e d =
      ground (arith, (h.delete_found s key old e).0, h.others_delete s key other d)

  write-keeps :
      (key other : NamespacedName) (new : SecurityPolicy) (s : server.State)
      (old : Option SecurityPolicy)
      → key_of new ≡ key
      → stored s key ≡ old
      → other ≢ key
      → stored
          (write_security_policy server (some new) (server.read_security_policy s key) s).0
          other
        ≡ stored s other
  unfolding write_security_policy
  write-keeps key other new s none k e d =
      ground (arith, h.read s key, e, h.others_create s new other (λ same. d (same ∙ k)))
  write-keeps key other new s (some old) k e d =
      let kept = h.stored_key s key old e in
      ground (
        arith,
        h.read s key,
        e,
        h.others_update s (record old { spec = new.spec }) other (λ same. d (same ∙ kept)),
      )

  -- On a server that carries out the writes, when the NetworkPolicy of the request is found or is
  -- reported as missing, Reconcile returns no error. Then the SecurityPolicy of the request has the
  -- translated spec, or there is none if the NetworkPolicy is missing. The translation must not
  -- panic: every port has a protocol. No other SecurityPolicy changes.
  pub network_policy_reconcile-stores :
      (port_text : IntOrString → String) (request other : NamespacedName) (s : server.State)
      (found : Option NetworkPolicy) (wanted : Option SecurityPolicySpec)
      → server.read_network_policy s request ≡ found_or_not found
      → expected port_text found ≡ some wanted
      → other ≢ policy_key request
      → EndsWith (policy_key request) wanted (network_policy_reconcile server port_text request s)
        × (stored (network_policy_reconcile server port_text request s).0 other ≡ stored s other)
  unfolding network_policy_reconcile reconcile_found
  network_policy_reconcile-stores port_text request other s none wanted r w d =
      let at = policy_key request in
      ground (
        arith,
        r,
        w,
        delete-ends at s (stored s at) refl,
        delete-keeps at other s (stored s at) refl d,
      )
  network_policy_reconcile-stores port_text request other s (some policy) wanted r w d =
      let (new, made, same) = mapped_spec (get_security_policy port_text policy) wanted w in
      let key =
        get_security_policy-key port_text policy new made
        ∙ ap policy_key (h.read_key s request policy r) in
      let at = policy_key request in
      ground (
        arith,
        r,
        made,
        same,
        write-ends at new s (stored s at) key refl,
        write-keeps at other new s (stored s at) key refl d,
      )

  -- When Get fails with another error than NotFound, Reconcile returns no error, and the
  -- SecurityPolicy that is there gets the translation of an empty NetworkPolicy.
  pub network_policy_reconcile-failed_read :
      (port_text : IntOrString → String) (request : NamespacedName) (s : server.State)
      (message : String) (old : SecurityPolicy)
      → server.read_network_policy s request ≡ err (failed message)
      → stored s (policy_key request) ≡ some old
      → EndsWith
          (policy_key request)
          (some (translated_spec port_text empty_network_policy [] []))
          (network_policy_reconcile server port_text request s)
  unfolding network_policy_reconcile reconcile_found get_security_policy write_security_policy
  network_policy_reconcile-failed_read port_text request s message old r e =
      let (ok_it, there) =
        h.update s (policy_key request)
          (record old { spec = translated_spec port_text empty_network_policy [] [] }) old
          (h.stored_key s (policy_key request) old e) e in
      ground (arith, r, h.read s (policy_key request), e, ok_it, there)
