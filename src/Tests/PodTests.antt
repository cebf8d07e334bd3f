-- ===== src/Tests/PodTests.antt =====
-- The theorem on pods, on a server that keeps the Endpoints in a list, the newest first.
use everoute.Common.{
  ◌≡◌, refl, ap, sym, ◌∙◌, String, Bool, true, false, ◌&&◌, Option, none, some, List, [], ◌∷◌, ok,
  ◌==◌, string_eq, if◌then◌else◌, arith, Bool-cases, inl, inr,
}
use everoute.Api.{NamespacedName, Endpoint, EndpointStatus}
use everoute.PodController.{Pod, PodServer, endpoint_key, new_endpoint, pod_reconcile, empty_status}
use everoute.PodController.Converges.{
  found_or_missing, endpoint_name, IsReliable, mirrored, pod_reconcile-mirrors,
}

abbrev is_named : NamespacedName → Endpoint → Bool
is_named key e = e.name == key.name && e.namespace == key.namespace

is_named-endpoint_name : (e : Endpoint) → is_named (endpoint_name e) e ≡ true
is_named-endpoint_name e =
    ground (arith, string_eq.beq_iff e.name e.name, string_eq.beq_iff e.namespace e.namespace)

abbrev newest : List Endpoint → NamespacedName → Option Endpoint
newest [] key = none
newest (e ∷ es) key = let rest = newest es key in if is_named key e then some e else rest

abbrev others : NamespacedName → List Endpoint → List Endpoint
others key [] = []
others key (e ∷ es) = let rest = others key es in if is_named key e then rest else e ∷ rest

newest-name :
    (es : List Endpoint) (key : NamespacedName) (e : Endpoint)
    → newest es key ≡ some e
    → endpoint_name e ≡ key
newest-name [] key e h = ground (arith, h)
newest-name (f ∷ es) key e h = elim (Bool-cases (is_named key f)) [
  | inl same ↦ ground (
    arith,
    h,
    same,
    string_eq.beq_iff f.name key.name,
    string_eq.beq_iff f.namespace key.namespace,
  )
  | inr other ↦ newest-name es key e (ground (arith, h, other))
]

newest-first :
    (key : NamespacedName) (e : Endpoint) (es : List Endpoint)
    → endpoint_name e ≡ key
    → newest (e ∷ es) key ≡ some e
newest-first key e es h = ap (newest (e ∷ es)) (sym h) ∙ ground (arith, is_named-endpoint_name e)

abbrev status_or_empty : Option Endpoint → EndpointStatus
status_or_empty none = empty_status
status_or_empty (some e) = e.status

abbrev kept_status : Endpoint → List Endpoint → Endpoint
kept_status e es = record e { status = status_or_empty (newest es (endpoint_name e)) }

-- the stored object with the status of an object, if there is one
abbrev put_status : Endpoint → Option Endpoint → List Endpoint → List Endpoint
put_status e none es = es
put_status e (some old) es = record old { status = e.status } ∷ es

abbrev one_pod : Pod → PodServer
one_pod pod = record {
  State = List Endpoint;
  read_pod = λ s key. ok pod;
  read_endpoint = λ s key. found_or_missing (newest s key);
  create = λ e s. (e ∷ s, none);
  update = λ e s. (kept_status e s ∷ s, ok (kept_status e s));
  update_status = λ e s. (put_status e (newest s (endpoint_name e)) s, none);
  delete = λ key s. (others key s, none);
}

kept_status-old :
    (s : List Endpoint) (key : NamespacedName) (e old : Endpoint)
    → endpoint_name e ≡ key
    → newest s key ≡ some old
    → kept_status e s ≡ record e { status = old.status }
kept_status-old s key e old k h =
    ap (λ o. record e { status = status_or_empty o }) (ap (newest s) k ∙ h)

one_pod-IsReliable : (pod : Pod) → IsReliable (one_pod pod) newest
one_pod-IsReliable pod = record {
  read = λ s key. refl;
  stored_name = newest-name;
  create = λ s e h. (refl, newest-first (endpoint_name e) e s refl);
  update = λ s key e old k h. (
    ap ok (kept_status-old s key e old k h),
    newest-first key (kept_status e s) s k ∙ ap some (kept_status-old s key e old k h),
  );
  update_status = λ s key e old k h. (
    refl,
    ap (λ o. newest (put_status e o s) key) (ap (newest s) k ∙ h)
        ∙ newest-first key (record old { status = e.status }) s (newest-name s key old h),
  );
}

abbrev web_pod : Pod
web_pod = record {
  labels = ("app", "web") ∷ [];
  host_network = false;
  containers =
      (record { name = "http"; container_port = 80; protocol = "TCP" }
        ∷ record { name = "sig"; container_port = 81; protocol = "SCTP" }
        ∷ [])
      ∷ [];
  node_name = "node1";
  pod_ip = "10.0.0.1";
}

abbrev web : NamespacedName
web = record { name = "web"; namespace = "default" }

abbrev digest : String → String
digest s = s

abbrev after_one : List Endpoint
after_one = (pod_reconcile digest (one_pod web_pod) web []).0

pod_reconcile-mirrors_example :
    ((pod_reconcile digest (one_pod web_pod) web []).1 ≡ none)
    × ((pod_reconcile digest (one_pod web_pod) web after_one).1 ≡ none)
    × (newest (pod_reconcile digest (one_pod web_pod) web after_one).0 (endpoint_key web)
        ≡ some (mirrored web_pod (new_endpoint digest (endpoint_key web) web_pod)))
pod_reconcile-mirrors_example =
    pod_reconcile-mirrors digest (one_pod web_pod) newest (one_pod-IsReliable web_pod) web web_pod
      [] none (λ t. refl) refl refl
