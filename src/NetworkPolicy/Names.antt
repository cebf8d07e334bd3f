-- ===== src/NetworkPolicy/Names.antt =====
-- The names of the SecurityPolicies that stand for NetworkPolicies, and the requests that their
-- creation queues.
use Prim.Native.String.{◌++◌ as then_text}
use Prim.Native.String.append
use Prim.Native.Char.{code}
use text.Mathlib.TextEquality.{Char-path}
use mathlib.Core.Option
use everoute.Common.{
  ◌≡◌, sym, ap, ◌∙◌, String, Option, none, some, arith, ◌↔◌, ◌==◌, nat_eq, Bool-cases, inl, inr,
}
use everoute.Api.{NamespacedName, SecurityPolicy}
use everoute.NetworkPolicy.{add_security_policy, security_policy_name, trim_prefix}

trim_prefix-then_text : (p s : String) → trim_prefix p (then_text p s) ≡ some s
unfolding trim_prefix
trim_prefix-then_text String.[] s = ap some (append.nil s)
trim_prefix-then_text (String.◌∷◌ c p) s =
    ap (trim_prefix (String.◌∷◌ c p)) (append.cons c p s)
    ∙ ground (arith, nat_eq.beq_iff (code c) (code c), trim_prefix-then_text p s)

trim_prefix-some : (p text s : String) → trim_prefix p text ≡ some s → text ≡ then_text p s
unfolding trim_prefix
trim_prefix-some String.[] text s h = ground (arith, h, append.nil s)
trim_prefix-some (String.◌∷◌ c p) String.[] s h = ground (arith, h)
trim_prefix-some (String.◌∷◌ c p) (String.◌∷◌ d text) s h = elim (Bool-cases (code c == code d)) [
  | inl same ↦
      let rest = trim_prefix-some p text s (ground (arith, h, same)) in
      let one = Char-path d c (sym ((nat_eq.beq_iff (code c) (code d)).0 same)) in
      ap (String.◌∷◌ d) rest ∙ ap (λ x. String.◌∷◌ x (then_text p s)) one ∙ sym (append.cons c p s)
  | inr differs ↦ ground (arith, h, differs)
]

-- the request of a name
abbrev request_in : String → String → NamespacedName
request_in namespace name = record { name = name; namespace = namespace }

mapped_request :
    (namespace : String) (o : Option String) (request : NamespacedName)
    → Option.map (request_in namespace) o ≡ some request
    → (o ≡ some request.name) × (namespace ≡ request.namespace)
mapped_request namespace none request h = ground (arith, h)
mapped_request namespace (some name) request h = ground (arith, h)

-- The creation of a SecurityPolicy queues a request just when the policy has the namespace of the
-- request and the name that Reconcile gives to the policy of the request.
pub add_security_policy-inverse :
    (policy : SecurityPolicy) (request : NamespacedName)
    → (add_security_policy policy ≡ some request)
      ↔ ((policy.name ≡ security_policy_name request.name) × (policy.namespace ≡ request.namespace))
unfolding add_security_policy
add_security_policy-inverse policy request = (
  λ h.
      let (trimmed, same) =
        mapped_request policy.namespace (trim_prefix "np-" policy.name) request h in
      (trim_prefix-some "np-" policy.name request.name trimmed, same),
  λ h.
      ap (λ name. Option.map (request_in policy.namespace) (trim_prefix "np-" name)) h.0
      ∙ ap (Option.map (request_in policy.namespace)) (trim_prefix-then_text "np-" request.name)
      ∙ ap (λ namespace. some (request_in namespace request.name)) h.1,
)
