-- ===== src/PodController/Converges.antt =====
-- The Endpoint of a pod after PodReconciler.Reconcile, on a server that carries out the writes.
use everoute.Common.{◌≡◌, ap, false, Option, none, some, [], ◌∷◌, Result, ok, err, arith}
use everoute.Api.{NamespacedName, Endpoint}
use everoute.PodController.{
  Pod, PodServer, CallError, missing, Digest, endpoint_key, new_endpoint, with_pod_status,
  pod_reconcile, reconcile_pod, sync_pod, write_endpoint, update_endpoint_of_pod, write_status,
}

abbrev pub found_or_missing : Option Endpoint → Result CallError Endpoint
found_or_missing none = err missing
found_or_missing (some e) = ok e

abbrev pub endpoint_name : Endpoint → NamespacedName
endpoint_name e = record { name = e.name; namespace = e.namespace }

-- Reads of an endpoint return what is stored, Create stores where there is nothing, Update stores
-- all but the status and answers with the object, and an update of the status stores the status.
pub record IsReliable (server : PodServer)
    (stored : server.State → NamespacedName → Option Endpoint) : Type 0 where
  pub read :
      (s : server.State) (key : NamespacedName)
      → server.read_endpoint s key ≡ found_or_missing (stored s key)
  pub stored_name :
      (s : server.State) (key : NamespacedName) (e : Endpoint)
      → stored s key ≡ some e
      → endpoint_name e ≡ key
  pub create :
      (s : server.State) (e : Endpoint)
      → stored s (endpoint_name e) ≡ none
      → ((server.create e s).1 ≡ none) × (stored (server.create e s).0 (endpoint_name e) ≡ some e)
  pub update :
      (s : server.State) (key : NamespacedName) (e old : Endpoint)
      → endpoint_name e ≡ key
      → stored s key ≡ some old
      → ((server.update e s).1 ≡ ok (record e { status = old.status }))
        × (stored (server.update e s).0 key ≡ some (record e { status = old.status }))
  pub update_status :
      (s : server.State) (key : NamespacedName) (e old : Endpoint)
      → endpoint_name e ≡ key
      → stored s key ≡ some old
      → ((server.update_status e s).1 ≡ none)
        × (stored (server.update_status e s).0 key ≡ some (record old { status = e.status }))

-- the endpoint of a pod, from the one that is stored or a new one
abbrev pub start_endpoint : Digest → NamespacedName → Pod → Option Endpoint → Endpoint
start_endpoint digest key pod none = new_endpoint digest key pod
start_endpoint digest key pod (some e) = e

-- an endpoint with the labels, the node and the address of a pod
abbrev pub mirrored : Pod → Endpoint → Endpoint
mirrored pod e = record e {
  labels = pod.labels;
  status = record e.status { agents = pod.node_name ∷ []; ips = pod.pod_ip ∷ [] };
}

module _ (digest : Digest) (server : PodServer)
    (stored : server.State → NamespacedName → Option Endpoint) (h : IsReliable server stored) where
  update-mirrors :
      (key : NamespacedName) (pod : Pod) (s : server.State) (old : Endpoint)
      → stored s key ≡ some old
      → ((update_endpoint_of_pod digest server pod old s).1 ≡ none)
        × (stored (update_endpoint_of_pod digest server pod old s).0 key ≡ some (mirrored pod old))
  unfolding update_endpoint_of_pod write_status with_pod_status
  update-mirrors key pod s old e =
      let name = h.stored_name s key old e in
      let (answer, there) = h.update s key (record old { labels = pod.labels }) old name e in
      let (done, both) =
        h.update_status (server.update (record old { labels = pod.labels }) s).0 key
          (mirrored pod old) (record old { labels = pod.labels }) name there in
      ground (arith, answer, done, both)

  sync_pod-found :
      (key : NamespacedName) (pod : Pod) (s : server.State) (old : Endpoint)
      → pod.host_network ≡ false
      → stored s key ≡ some old
      → ((sync_pod digest server key pod s).1 ≡ none)
        × (stored (sync_pod digest server key pod s).0 key ≡ some (mirrored pod old))
  unfolding sync_pod write_endpoint
  sync_pod-found key pod s old host e =
      ground (arith, host, h.read s key, e, update-mirrors key pod s old e)

  sync_pod-missing :
      (key : NamespacedName) (pod : Pod) (s : server.State)
      → pod.host_network ≡ false
      → stored s key ≡ none
      → ((sync_pod digest server key pod s).1 ≡ none)
        × (stored (sync_pod digest server key pod s).0 key ≡ some (new_endpoint digest key pod))
  unfolding sync_pod write_endpoint new_endpoint
  sync_pod-missing key pod s host e =
      ground (arith, host, h.read s key, e, h.create s (new_endpoint digest key pod) e)

  round :
      (request : NamespacedName) (pod : Pod) (s : server.State)
      → server.read_pod s request ≡ ok pod
      → pod_reconcile digest server request s ≡ sync_pod digest server (endpoint_key request) pod s
  unfolding pod_reconcile reconcile_pod
  round request pod s read = ap (λ r. reconcile_pod digest server (endpoint_key request) r s) read

  reconcile-found :
      (request : NamespacedName) (pod : Pod) (s : server.State) (old : Endpoint)
      → server.read_pod s request ≡ ok pod
      → pod.host_network ≡ false
      → stored s (endpoint_key request) ≡ some old
      → ((pod_reconcile digest server request s).1 ≡ none)
        × (stored (pod_reconcile digest server request s).0 (endpoint_key request)
            ≡ some (mirrored pod old))
  reconcile-found request pod s old read host e =
      rw (round request pod s read) (sync_pod-found (endpoint_key request) pod s old host e)

  -- On a server that carries out the writes, two rounds of Reconcile for a pod that is not on the
  -- host network return no error, and the Endpoint of the pod then has the labels, the node and the
  -- address of the pod. The rest of it is as before, or that of a new endpoint.
  pub pod_reconcile-mirrors :
      (request : NamespacedName) (pod : Pod) (s : server.State) (old : Option Endpoint)
      → ((t : server.State) → server.read_pod t request ≡ ok pod)
      → pod.host_network ≡ false
      → stored s (endpoint_key request) ≡ old
      → ((pod_reconcile digest server request s).1 ≡ none)
        × ((pod_reconcile digest server request (pod_reconcile digest server request s).0).1 ≡ none)
        × (stored
              (pod_reconcile digest server request (pod_reconcile digest server request s).0).0
              (endpoint_key request)
            ≡ some (mirrored pod (start_endpoint digest (endpoint_key request) pod old)))
  unfolding with_pod_status
  pod_reconcile-mirrors request pod s none read host e =
      let at = endpoint_key request in
      let (done, made) : ((pod_reconcile digest server request s).1 ≡ none)
          × (stored (pod_reconcile digest server request s).0 at
              ≡ some (new_endpoint digest at pod)) =
        rw (round request pod s (read s)) (sync_pod-missing at pod s host e) in
      let next = (pod_reconcile digest server request s).0 in
      let (again, kept) =
        reconcile-found request pod next (new_endpoint digest at pod) (read next) host made in
      (done, again, kept)
  pod_reconcile-mirrors request pod s (some old) read host e =
      let (done, made) = reconcile-found request pod s old (read s) host e in
      let next = (pod_reconcile digest server request s).0 in
      let (again, kept) =
        reconcile-found request pod next (mirrored pod old) (read next) host made in
      (done, again, kept)
