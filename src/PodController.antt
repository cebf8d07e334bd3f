-- ===== src/PodController.antt =====
-- PodReconciler of pkg/controller/k8s/pod_controller.go, which keeps an Endpoint for each pod, and
-- pkg/controller/k8s/port_name.go. The API server is an interface, and the digest of a
-- name is a parameter.
pub mod Converges
use Prim.Native.String.{◌++◌ as then_text}
use mathlib.Core.Option
use everoute.Common.{
  ℕ, String, Bool, true, false, Option, none, some, List, [], ◌∷◌, ◌++◌, if◌then◌else◌, Result, ok,
  err, ◌==◌, string_eq, ◌&&◌,
}
use everoute.Common.Dict.{Dict}
use everoute.Api.{
  NamespacedName, NamedPort, Endpoint, EndpointSpec, EndpointStatus, EndpointReference,
  endpoint_static,
}
use everoute.NetworkPolicy.{trim_prefix}

-- corev1.ContainerPort, with the fields that the code reads
pub record ContainerPort : Type 0 where
  pub name : String
  pub container_port : ℕ
  pub protocol : String

-- corev1.Pod: its labels, and of its spec and status what the code reads. The containers are their
-- ports.
pub record Pod : Type 0 where
  pub labels : Dict String String
  pub host_network : Bool
  pub containers : List (List ContainerPort)
  pub node_name : String
  pub pod_ip : String

-- corev1.Pod{}
abbrev pub empty_pod : Pod
empty_pod = record {
  labels = [];
  host_network = false;
  containers = [];
  node_name = "";
  pod_ip = "";
}

-- an error of a call: NotFound, another reason of the API, or an error that is no APIStatus
pub data CallError : Type 0 where
  missing : CallError
  with_reason : String → CallError
  without_reason : String → CallError

unfoldable pub to_named_ports : List ContainerPort → List NamedPort
to_named_ports [] = []
to_named_ports (item ∷ items) =
    let more = to_named_ports items in
    if item.protocol == "SCTP"
    then more
    else record { port = item.container_port; name = item.name; protocol = item.protocol } ∷ more

-- the loop over the containers
unfoldable pub pod_named_ports : List (List ContainerPort) → List NamedPort
unfolding to_named_ports
pod_named_ports [] = []
pod_named_ports (ports ∷ containers) = to_named_ports ports ++ pod_named_ports containers

-- the first 32 characters of Base64AndSha256
abbrev pub Digest : Type 0
Digest = String → String

-- The text of a name is "/" only if the name and the namespace are empty.
unfoldable pub encode_namespaced_name : Digest → NamespacedName → String
encode_namespaced_name digest key =
    if key.namespace == "" && key.name == "" then "" else digest (then_text key.namespace key.name)

-- "pod-" + name, in the namespace of the request
abbrev pub endpoint_key : NamespacedName → NamespacedName
endpoint_key request = record {
  name = then_text "pod-" request.name;
  namespace = request.namespace;
}

abbrev pub empty_status : EndpointStatus
empty_status = record { ips = []; mac_address = ""; agents = [] }

-- v1alpha1.Endpoint{}
abbrev pub empty_endpoint : Endpoint
empty_endpoint = record {
  name = "";
  namespace = "";
  labels = [];
  spec = record {
    vid = 0;
    extend_labels = [];
    reference = record { external_id_name = ""; external_id_value = "" };
    type = "";
    ports = [];
  };
  status = empty_status;
}

-- the endpoint of a new pod; the loop over the labels copies the map
unfoldable pub new_endpoint : Digest → NamespacedName → Pod → Endpoint
unfolding encode_namespaced_name pod_named_ports
new_endpoint digest key pod = record {
  name = key.name;
  namespace = key.namespace;
  labels = pod.labels;
  spec = record {
    vid = 0;
    extend_labels = [];
    reference = record {
      external_id_name = "pod-uuid";
      external_id_value = encode_namespaced_name digest key;
    };
    type = endpoint_static;
    ports = pod_named_ports pod.containers;
  };
  status = empty_status;
}

unfoldable pub with_pod_status : Pod → Endpoint → Endpoint
with_pod_status pod endpoint = record endpoint {
  status = record endpoint.status { agents = pod.node_name ∷ []; ips = pod.pod_ip ∷ [] };
}

-- the request that the creation of an Endpoint queues
unfoldable pub add_endpoint_of_pod : Endpoint → Option NamespacedName
unfolding trim_prefix
add_endpoint_of_pod endpoint =
    Option.map (λ name. record { name = name; namespace = endpoint.namespace })
      (trim_prefix "pod-" endpoint.name)

-- The API server: Update answers with the object as the server has it.
pub record PodServer : Type 1 where
  pub State : Type 0
  pub read_pod : State → NamespacedName → Result CallError Pod
  pub read_endpoint : State → NamespacedName → Result CallError Endpoint
  pub create : Endpoint → State → State × Option CallError
  pub update : Endpoint → State → State × Result CallError Endpoint
  pub update_status : Endpoint → State → State × Option CallError
  pub delete : NamespacedName → State → State × Option CallError

module _ (digest : Digest) (server : PodServer) where
  open server use {State}

  -- a state, and the error that is returned, if any
  abbrev pub Finished : Type 0
  Finished = State × Option CallError

  -- an error NotFound of Delete is ignored
  abbrev pub delete_checked : Finished → Finished
  delete_checked (s, none) = (s, none)
  delete_checked (s, some missing) = (s, none)
  delete_checked (s, some (with_reason e)) = (s, some (with_reason e))
  delete_checked (s, some (without_reason e)) = (s, some (without_reason e))

  unfoldable pub write_status : Pod → State × Result CallError Endpoint → Finished
  unfolding with_pod_status
  write_status pod (s, err e) = (s, some e)
  write_status pod (s, ok endpoint) = server.update_status (with_pod_status pod endpoint) s

  unfoldable pub update_endpoint_of_pod : Pod → Endpoint → State → Finished
  unfolding write_status
  update_endpoint_of_pod pod endpoint s =
      write_status pod (server.update (record endpoint { labels = pod.labels }) s)

  -- The switch over ReasonForError, which is Unknown for no error and for an error that is no
  -- APIStatus; that one leaves the endpoint empty.
  unfoldable pub write_endpoint :
      NamespacedName → Pod → Result CallError Endpoint → State → Finished
  unfolding update_endpoint_of_pod new_endpoint
  write_endpoint key pod (err missing) s = server.create (new_endpoint digest key pod) s
  write_endpoint key pod (ok endpoint) s = update_endpoint_of_pod pod endpoint s
  write_endpoint key pod (err (without_reason e)) s = update_endpoint_of_pod pod empty_endpoint s
  write_endpoint key pod (err (with_reason e)) s = (s, some (with_reason e))

  unfoldable pub sync_pod : NamespacedName → Pod → State → Finished
  unfolding write_endpoint
  sync_pod key pod s =
      if pod.host_network then (s, none) else write_endpoint key pod (server.read_endpoint s key) s

  -- Any error of the first Get but NotFound leaves the pod empty, and is not looked at again.
  unfoldable pub reconcile_pod : NamespacedName → Result CallError Pod → State → Finished
  unfolding sync_pod
  reconcile_pod key (err missing) s = delete_checked (server.delete key s)
  reconcile_pod key (err (with_reason e)) s = sync_pod key empty_pod s
  reconcile_pod key (err (without_reason e)) s = sync_pod key empty_pod s
  reconcile_pod key (ok pod) s = sync_pod key pod s

  unfoldable pub pod_reconcile : NamespacedName → State → Finished
  unfolding reconcile_pod
  pod_reconcile request s = reconcile_pod (endpoint_key request) (server.read_pod s request) s
