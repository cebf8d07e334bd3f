-- ===== src/GroupController/Handlers.antt =====
-- What the watches of pkg/controller/group/group_controller.go enqueue: the handlers of endpoints,
-- groups and namespaces, as the names that they add to the queue. A request has no namespace. The
-- comparison of Kubernetes on label maps, and reflect.DeepEqual on label maps and specs, are
-- parameters.
use everoute.Common.{
  ◌≡◌, String, Bool, ◌&&◌, ◌||◌, not, List, [], ◌∷◌, if◌then◌else◌, arith, string_eq,
}
use everoute.Common.Dict.{Dict}
use everoute.Common.Set.{has, insert_all, has-insert_all}
use everoute.Api.{Endpoint, EndpointGroupSpec}
use everoute.Labels.{is_nil, equals}
use everoute.Utils.{equal_ips, equal_string_slice}
use everoute.GroupController.Select.{
  Reads, Namespace, filter_endpoint_groups_by_endpoint, filter_endpoint_groups_by_namespace,
}
use everoute.GroupController.Reconcile.{GroupObject, is_deleting_endpoint_group}

module _ (client : Reads) (same_labels deep_equal : Dict String String → Dict String String → Bool)
    (same_spec : EndpointGroupSpec → EndpointGroupSpec → Bool) where
  unfoldable pub add_endpoint : Endpoint → List String
  add_endpoint endpoint =
      if is_nil endpoint.status.ips then [] else filter_endpoint_groups_by_endpoint client endpoint

  -- the comparison that ignores an update
  unfoldable pub is_ignored : Endpoint → Endpoint → Bool
  is_ignored new_endpoint old_endpoint =
      same_labels new_endpoint.labels old_endpoint.labels
      && equals new_endpoint.spec.extend_labels old_endpoint.spec.extend_labels
      && equal_ips new_endpoint.status.ips old_endpoint.status.ips
      && equal_string_slice new_endpoint.status.agents old_endpoint.status.agents

  unfoldable pub update_endpoint : Endpoint → Endpoint → List String
  unfolding is_ignored
  update_endpoint new_endpoint old_endpoint =
      if is_ignored new_endpoint old_endpoint
      then []
      else insert_all (filter_endpoint_groups_by_endpoint client old_endpoint)
          (filter_endpoint_groups_by_endpoint client new_endpoint)

  unfoldable pub delete_endpoint : Endpoint → List String
  delete_endpoint endpoint = filter_endpoint_groups_by_endpoint client endpoint

  unfoldable pub add_endpoint_group : GroupObject → List String
  add_endpoint_group object = object.group.name ∷ []

  unfoldable pub update_endpoint_group : GroupObject → GroupObject → List String
  update_endpoint_group new_group old_group =
      if is_deleting_endpoint_group new_group
      then new_group.group.name ∷ []
      else if not (same_spec new_group.group.spec old_group.group.spec)
      then new_group.group.name ∷ []
      else []

  unfoldable pub delete_endpoint_group : GroupObject → List String
  delete_endpoint_group object = object.group.name ∷ []

  unfoldable pub add_namespace : Namespace → List String
  add_namespace namespace = filter_endpoint_groups_by_namespace client namespace

  unfoldable pub update_namespace : Namespace → Namespace → List String
  update_namespace new_namespace old_namespace =
      if deep_equal new_namespace.labels old_namespace.labels
      then []
      else insert_all (filter_endpoint_groups_by_namespace client new_namespace)
          (filter_endpoint_groups_by_namespace client old_namespace)

  unfoldable pub delete_namespace : Namespace → List String
  delete_namespace namespace = filter_endpoint_groups_by_namespace client namespace

  -- An update of an endpoint enqueues a group exactly if it changes the labels, extended labels,
  -- addresses or agents of the endpoint, and the group is one of the old or the new endpoint.
  pub update_endpoint-has :
      (new_endpoint old_endpoint : Endpoint) (group : String)
      → has group (update_endpoint new_endpoint old_endpoint) ≡ (
          not (is_ignored new_endpoint old_endpoint)
          && (has group (filter_endpoint_groups_by_endpoint client new_endpoint)
              || has group (filter_endpoint_groups_by_endpoint client old_endpoint)))
  unfolding update_endpoint has
  update_endpoint-has new_endpoint old_endpoint group = ground (
    arith,
    has-insert_all group (filter_endpoint_groups_by_endpoint client old_endpoint)
        (filter_endpoint_groups_by_endpoint client new_endpoint),
  )
