-- ===== src/GroupController/Select.antt =====
-- fetchCurrGroupMembers, filterEndpointGroupsByEndpoint and filterEndpointGroupsByNamespace of
-- pkg/controller/group/group_controller.go. The reads of the Kubernetes client and
-- LabelSelectorAsSelector are parameters.
pub mod Enqueued
pub mod Events
use everoute.Common.{
  String, Bool, true, false, ◌&&◌, ◌||◌, not, Option, none, some, List, [], ◌∷◌, ◌++◌, ◌==◌,
  string_eq, if◌then◌else◌, Result, ok, err,
}
use everoute.Common.Results.{◌>>=◌}
use everoute.Common.Dict.{Dict, lookup}
use everoute.Common.Set.{add}
use everoute.Api.{
  Selector, LabelSelector, NamespacedName, Endpoint, EndpointGroup, GroupMember, GroupMembers,
}
use everoute.Generator.{all_ep_with_named_port}
use everoute.Labels.{LabelError, is_nil, as_set, matches_selector}

-- corev1.Namespace
pub record Namespace : Type 0 where
  pub name : String
  pub labels : Dict String String

-- an error of a read; not_found is the one that apierrors.IsNotFound accepts
pub data ReadError : Type 0 where
  not_found : ReadError
  failed : String → ReadError

-- metav1.NamespaceAll
abbrev pub namespace_all : String
namespace_all = ""

-- labels.Selector of Kubernetes: what Matches answers
abbrev pub Matcher : Type 0
Matcher = Dict String String → Bool

-- The reads of the client. LabelSelectorAsSelector returns an error for an invalid selector.
pub record Reads : Type 0 where
  pub as_selector : LabelSelector → Option Matcher
  pub list_namespaces : Matcher → Result ReadError (List Namespace)
  pub get_namespace : String → Result ReadError Namespace
  pub get_endpoint : NamespacedName → Result ReadError Endpoint
  pub list_endpoints : String → Result ReadError (List Endpoint)
  pub list_groups : Result ReadError (List EndpointGroup)

pub data FetchError : Type 0 where
  invalid_namespace_selector : FetchError
  invalid_labels : LabelError → FetchError
  read_error : ReadError → FetchError

abbrev pub or_read_error {ℓ} : {A : Type ℓ} → Result ReadError A → Result FetchError A
or_read_error (ok a) = ok a
or_read_error (err e) = err (read_error e)

unfoldable pub to_member : Endpoint → GroupMember
to_member ep = record {
  endpoint_reference = record {
    external_id_name = ep.spec.reference.external_id_name;
    external_id_value = ep.spec.reference.external_id_value;
  };
  endpoint_agent = ep.status.agents;
  ips = ep.status.ips;
  ports = ep.spec.ports;
}

-- the two `continue` of the conversion to members
unfoldable pub is_skipped : Bool → Endpoint → Bool
is_skipped is_all_eps_group ep = is_nil ep.status.ips || is_all_eps_group && is_nil ep.spec.ports

unfoldable pub to_member_list : Bool → List Endpoint → List GroupMember
unfolding to_member is_skipped
to_member_list is_all_eps_group [] = []
to_member_list is_all_eps_group (ep ∷ rest) =
    let members = to_member_list is_all_eps_group rest in
    if is_skipped is_all_eps_group ep then members else to_member ep ∷ members

abbrev pub names_of : List Namespace → List String
names_of [] = []
names_of (n ∷ rest) = n.name ∷ names_of rest

abbrev pub or_labels {ℓ} : {A : Type ℓ} → Result LabelError A → Result FetchError A
or_labels (ok a) = ok a
or_labels (err e) = err (invalid_labels e)

-- the loop over the endpoints of a namespace
unfoldable pub filter_endpoints :
    Option Selector → List Endpoint → Result FetchError (List Endpoint)
filter_endpoints selector [] = ok []
filter_endpoints selector (endpoint ∷ rest) =
    or_labels (as_set endpoint.labels endpoint.spec.extend_labels) >>= λ label_set.
    filter_endpoints selector rest >>= λ matched.
    ok (if matches_selector selector label_set then endpoint ∷ matched else matched)

-- a missing endpoint is ignored
unfoldable pub found_endpoint : Result ReadError Endpoint → Result FetchError (List Endpoint)
found_endpoint (ok endpoint) = ok (endpoint ∷ [])
found_endpoint (err not_found) = ok []
found_endpoint (err (failed e)) = err (read_error (failed e))

-- whether the group names the endpoint
unfoldable pub is_named : Option NamespacedName → Endpoint → Bool
is_named none endpoint = false
is_named (some name) endpoint = name.name == endpoint.name && name.namespace == endpoint.namespace

unfoldable pub in_namespace : Option String → Endpoint → Bool
in_namespace none endpoint = true
in_namespace (some namespace) endpoint = endpoint.namespace == namespace

unfoldable pub matches_or_invalid : Option Matcher → Dict String String → Bool
matches_or_invalid none labels = false
matches_or_invalid (some namespace_selector) labels = namespace_selector labels

unfoldable pub endpoint_matches : Option Selector → Endpoint → Bool
endpoint_matches selector endpoint = elim (as_set endpoint.labels endpoint.spec.extend_labels) [
  | ok label_set ↦ matches_selector selector label_set
  | err e ↦ false
]

abbrev pub insert_related : (EndpointGroup → Bool) → List String → List EndpointGroup → List String
insert_related p set [] = set
insert_related p set (group ∷ rest) =
    insert_related p (if p group then add group.name set else set) rest

module _ (client : Reads) where
  -- the namespaces that a selector picks
  unfoldable pub select_namespaces : Option Matcher → Result FetchError (List String)
  select_namespaces none = err invalid_namespace_selector
  select_namespaces (some namespace_selector) =
      or_read_error (client.list_namespaces namespace_selector) >>= λ namespace_list.
      ok (names_of namespace_list)

  unfoldable pub matched_namespaces :
      Option String → Option LabelSelector → Result FetchError (List String)
  unfolding select_namespaces
  matched_namespaces none none = ok (namespace_all ∷ [])
  matched_namespaces (some namespace) selector = ok (namespace ∷ [])
  matched_namespaces none (some selector) = select_namespaces (client.as_selector selector)

  unfoldable pub named_endpoints : Option NamespacedName → Result FetchError (List Endpoint)
  unfolding found_endpoint
  named_endpoints none = ok []
  named_endpoints (some name) = found_endpoint (client.get_endpoint name)

  -- the loop over the namespaces
  unfoldable pub endpoints_in : Option Selector → List String → Result FetchError (List Endpoint)
  unfolding filter_endpoints
  endpoints_in selector [] = ok []
  endpoints_in selector (namespace ∷ rest) =
      or_read_error (client.list_endpoints namespace) >>= λ endpoint_list.
      filter_endpoints selector endpoint_list >>= λ matched.
      endpoints_in selector rest >>= λ later. ok (matched ++ later)

  unfoldable pub matched_endpoints : EndpointGroup → Result FetchError (List Endpoint)
  unfolding matched_namespaces named_endpoints endpoints_in
  matched_endpoints group =
      matched_namespaces group.spec.namespace group.spec.namespace_selector >>= λ namespaces.
      named_endpoints group.spec.endpoint >>= λ named.
      endpoints_in group.spec.endpoint_selector namespaces >>= λ selected. ok (named ++ selected)

  unfoldable pub fetch_curr_group_members : EndpointGroup → Result FetchError GroupMembers
  unfolding matched_endpoints to_member_list
  fetch_curr_group_members group = matched_endpoints group >>= λ endpoints. ok (record {
    name = "";
    revision = 0;
    group_members = to_member_list (group.name == all_ep_with_named_port) endpoints;
  })

  unfoldable pub in_selected : Option LabelSelector → Dict String String → Bool
  unfolding matches_or_invalid
  in_selected none labels = true
  in_selected (some selector) labels = matches_or_invalid (client.as_selector selector) labels

  -- the body of the loop over the groups: whether the group is inserted
  unfoldable pub relates : Dict String String → Endpoint → EndpointGroup → Bool
  unfolding is_named in_namespace in_selected endpoint_matches
  relates endpoint_namespace_labels endpoint group =
      if group.name == all_ep_with_named_port
      then not (is_nil endpoint.spec.ports)
      else if is_named group.spec.endpoint endpoint
      then true
      else in_namespace group.spec.namespace endpoint
        && in_selected group.spec.namespace_selector endpoint_namespace_labels
        && endpoint_matches group.spec.endpoint_selector endpoint

  unfoldable pub filter_endpoint_groups_by_endpoint : Endpoint → List String
  unfolding relates
  filter_endpoint_groups_by_endpoint endpoint = elim client.list_groups [
    | err e ↦ []
    | ok group_list ↦ elim (client.get_namespace endpoint.namespace) [
      | err e ↦ []
      | ok namespace ↦ insert_related (relates namespace.labels endpoint) [] group_list
    ]
  ]

  -- the body of the loop over the groups, for a namespace
  unfoldable pub picks : Namespace → EndpointGroup → Bool
  unfolding matches_or_invalid
  picks namespace group =
      let by_selector : Bool = elim group.spec.namespace_selector [
        | none ↦ false
        | some selector ↦ matches_or_invalid (client.as_selector selector) namespace.labels
      ] in
      elim group.spec.namespace [
        | none ↦ by_selector
        | some name ↦ namespace.name == name || by_selector
      ]

  unfoldable pub filter_endpoint_groups_by_namespace : Namespace → List String
  unfolding picks
  filter_endpoint_groups_by_namespace namespace = elim client.list_groups [
    | err e ↦ []
    | ok group_list ↦ insert_related (picks namespace) [] group_list
  ]
