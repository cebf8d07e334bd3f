-- ===== src/GroupController/Select/Events.antt =====
-- What the endpoints are that fetchCurrGroupMembers matches.
use everoute.Common.{
  ◌≡◌, ◌≢◌, refl, sym, ap, ◌∙◌, String, true, Option, none, some, List, [], ◌∷◌, ◌++◌, All,
  All-append, string_eq, if◌then◌else◌, arith, Result, ok, err, Bool-cases, inl, inr, ◌⊎◌, All-map,
}
use everoute.Common.Results.{◌>>=◌, Returns, Returns->>=}
use everoute.Api.{Selector, LabelSelector, NamespacedName, Endpoint, EndpointGroup}
use everoute.Labels.{LabelError, LabelSet, as_set, matches_selector}
use everoute.GroupController.Select.{
  Namespace, ReadError, not_found, failed, Matcher, Reads, or_read_error, names_of, or_labels,
  filter_endpoints, select_namespaces, matched_namespaces, found_endpoint, named_endpoints,
  endpoints_in, matched_endpoints, is_named, in_namespace, in_selected, matches_or_invalid,
  endpoint_matches,
}

-- an error tells nothing
abbrev pub Anything {ℓ} : {E : Type ℓ} → E → Type 0
Anything e = Unit

-- the namespace of an endpoint can be read
abbrev pub IsKnown : Reads → Endpoint → Type 0
IsKnown client ep = (ns : Namespace) × (client.get_namespace ep.namespace ≡ ok ns)

-- The reads show one state of the cluster: a read by name returns the object of that name, a list
-- returns objects of the namespace or that match, and namespaces have a name.
pub record IsCoherent (client : Reads) : Type 0 where
  pub named :
      (name : NamespacedName)
      → Returns Anything
          (λ ep. (ep.name ≡ name.name) × (ep.namespace ≡ name.namespace) × IsKnown client ep)
          (client.get_endpoint name)
  pub listed :
      (n : String)
      → Returns Anything
          (All (λ ep. (n ≢ "" → ep.namespace ≡ n) × IsKnown client ep))
          (client.list_endpoints n)
  pub selected :
      (p : Matcher)
      → Returns Anything
          (All
            (λ ns. (ns.name ≢ "") × (p ns.labels ≡ true) × (client.get_namespace ns.name ≡ ok ns)))
          (client.list_namespaces p)

-- an error is passed on
or_read_error-Returns :
    {A : Type 0} (P : A → Type 0) (r : Result ReadError A)
    → Returns Anything P r
    → Returns Anything P (or_read_error r)
or_read_error-Returns P (ok a) h = h
or_read_error-Returns P (err e) h = tt

filter_one-All :
    (P : Endpoint → Type 0) (selector : Option Selector) (ep : Endpoint) (rest : List Endpoint)
    (labels : Result LabelError LabelSet)
    → as_set ep.labels ep.spec.extend_labels ≡ labels
    → P ep
    → Returns Anything
        (All (λ e. P e × (endpoint_matches selector e ≡ true)))
        (filter_endpoints selector rest)
    → Returns Anything (All (λ e. P e × (endpoint_matches selector e ≡ true))) (
        or_labels labels >>= λ label_set. filter_endpoints selector rest >>= λ matched.
        ok (if matches_selector selector label_set then ep ∷ matched else matched))
unfolding endpoint_matches
filter_one-All P selector ep rest (err e) same good more = tt
filter_one-All P selector ep rest (ok label_set) same good more =
    Returns->>= Anything (All (λ e. P e × (endpoint_matches selector e ≡ true)))
      (All (λ e. P e × (endpoint_matches selector e ≡ true))) (filter_endpoints selector rest)
      (λ matched. ok (if matches_selector selector label_set then ep ∷ matched else matched)) more
      (λ matched all. elim (Bool-cases (matches_selector selector label_set)) [
        | inl fits ↦ rw fits ((good, ground (arith, same, fits)), all)
        | inr other ↦ rw other all
      ])

filter_endpoints-All :
    (P : Endpoint → Type 0) (selector : Option Selector) (eps : List Endpoint)
    → All P eps
    → Returns Anything
        (All (λ ep. P ep × (endpoint_matches selector ep ≡ true)))
        (filter_endpoints selector eps)
unfolding filter_endpoints
filter_endpoints-All P selector [] all = tt
filter_endpoints-All P selector (ep ∷ rest) all =
    filter_one-All P selector ep rest (as_set ep.labels ep.spec.extend_labels) refl all.0
      (filter_endpoints-All P selector rest all.1)

or_given : Namespace → Result ReadError Namespace → Namespace
or_given a (ok b) = b
or_given a (err e) = a

ok_inj : (a b : Namespace) (r : Result ReadError Namespace) → r ≡ ok a → r ≡ ok b → a ≡ b
unfolding or_given
ok_inj a b r h k = sym (ap (or_given a) h) ∙ ap (or_given a) k

module _ (client : Reads) (coherent : IsCoherent client) where
  -- the namespace of the endpoint is one that the group picks
  abbrev pub IsInside : Option String → Option LabelSelector → Endpoint → Type 0
  IsInside namespace selector ep =
      (ns : Namespace) × (client.get_namespace ep.namespace ≡ ok ns)
      × (in_namespace namespace ep ≡ true)
      × (in_selected client selector ns.labels ≡ true)

  -- the endpoints that are listed in the namespace are inside
  abbrev Picks : Option String → Option LabelSelector → String → Type 0
  Picks namespace selector n =
      (ep : Endpoint)
      → (n ≢ "" → ep.namespace ≡ n)
      → IsKnown client ep
      → IsInside namespace selector ep

  names_of-Picks :
      (selector : LabelSelector) (p : Matcher) (nss : List Namespace)
      → client.as_selector selector ≡ some p
      → All
          (λ ns. (ns.name ≢ "") × (p ns.labels ≡ true) × (client.get_namespace ns.name ≡ ok ns))
          nss
      → All (Picks none (some selector)) (names_of nss)
  unfolding in_namespace in_selected matches_or_invalid
  names_of-Picks selector p [] valid all = tt
  names_of-Picks selector p (n ∷ nss) valid all = (
    λ ep inside known.
        let (ns, read) = known in
        let place = inside all.0.0 in
        let same : ns ≡ n =
          ok_inj ns n (client.get_namespace n.name) (ap client.get_namespace (sym place) ∙ read)
            all.0.2 in
        (ns, read, refl, ground (arith, valid, all.0.1, ap (λ x. p x.labels) same)),
    names_of-Picks selector p nss valid all.1,
  )

  select_namespaces-Picks :
      (selector : LabelSelector) (o : Option Matcher)
      → client.as_selector selector ≡ o
      → Returns Anything (All (Picks none (some selector))) (select_namespaces client o)
  unfolding select_namespaces
  select_namespaces-Picks selector none valid = tt
  select_namespaces-Picks selector (some p) valid =
      Returns->>= Anything
        (All (λ ns. (ns.name ≢ "") × (p ns.labels ≡ true) × (client.get_namespace ns.name ≡ ok ns)))
        (All (Picks none (some selector))) (or_read_error (client.list_namespaces p))
        (λ nss. ok (names_of nss))
        (or_read_error-Returns
          (All
            (λ ns. (ns.name ≢ "") × (p ns.labels ≡ true) × (client.get_namespace ns.name ≡ ok ns)))
          (client.list_namespaces p) (coherent.selected p))
        (λ nss all. names_of-Picks selector p nss valid all)

  matched_namespaces-Picks :
      (namespace : Option String) (selector : Option LabelSelector)
      → namespace ≢ some ""
      → (namespace ≡ none) ⊎ (selector ≡ none)
      → Returns Anything
          (All (Picks namespace selector))
          (matched_namespaces client namespace selector)
  unfolding matched_namespaces in_namespace in_selected
  matched_namespaces-Picks none none named one =
      (λ ep inside known. (known.0, known.1, refl, refl), tt)
  matched_namespaces-Picks (some n) none named one = (
    λ ep inside known. (
      known.0,
      known.1,
      ground (arith, inside (λ e. named (ap some e)), string_eq.beq_iff ep.namespace n),
      refl,
    ),
    tt,
  )
  matched_namespaces-Picks none (some selector) named one =
      select_namespaces-Picks selector (client.as_selector selector) refl
  matched_namespaces-Picks (some n) (some selector) named one = absurd (ground arith)

  -- inside, and matched by the selector of endpoints
  abbrev pub IsChosen : Option String → Option LabelSelector → Option Selector → Endpoint → Type 0
  IsChosen namespace spaces selector ep =
      IsInside namespace spaces ep × (endpoint_matches selector ep ≡ true)

  endpoints_in-All :
      (namespace : Option String) (spaces : Option LabelSelector) (selector : Option Selector)
      (names : List String)
      → All (Picks namespace spaces) names
      → Returns Anything
          (All (IsChosen namespace spaces selector))
          (endpoints_in client selector names)
  unfolding endpoints_in
  endpoints_in-All namespace spaces selector [] all = tt
  endpoints_in-All namespace spaces selector (n ∷ rest) all =
      Returns->>= Anything (All (λ ep. (n ≢ "" → ep.namespace ≡ n) × IsKnown client ep))
        (All (IsChosen namespace spaces selector)) (or_read_error (client.list_endpoints n))
        (λ eps. filter_endpoints selector eps >>= λ matched.
          endpoints_in client selector rest >>= λ later. ok (matched ++ later))
        (or_read_error-Returns (All (λ ep. (n ≢ "" → ep.namespace ≡ n) × IsKnown client ep))
          (client.list_endpoints n) (coherent.listed n))
        (λ eps listed.
          Returns->>= Anything (All (IsChosen namespace spaces selector))
            (All (IsChosen namespace spaces selector)) (filter_endpoints selector eps)
            (λ matched. endpoints_in client selector rest >>= λ later. ok (matched ++ later))
            (filter_endpoints-All (IsInside namespace spaces) selector eps (
              All-map (λ ep. (n ≢ "" → ep.namespace ≡ n) × IsKnown client ep)
                (IsInside namespace spaces) (λ ep h. all.0 ep h.0 h.1) eps listed))
            (λ matched here.
              Returns->>= Anything (All (IsChosen namespace spaces selector))
                (All (IsChosen namespace spaces selector)) (endpoints_in client selector rest)
                (λ later. ok (matched ++ later))
                (endpoints_in-All namespace spaces selector rest all.1)
                (λ later there.
                  All-append (IsChosen namespace spaces selector) matched later here there)))

  abbrev pub IsNamed : Option NamespacedName → Endpoint → Type 0
  IsNamed name ep = (is_named name ep ≡ true) × IsKnown client ep

  found_endpoint-All :
      (name : NamespacedName) (r : Result ReadError Endpoint)
      → Returns Anything
          (λ ep. (ep.name ≡ name.name) × (ep.namespace ≡ name.namespace) × IsKnown client ep)
          r
      → Returns Anything (All (IsNamed (some name))) (found_endpoint r)
  unfolding found_endpoint is_named
  found_endpoint-All name (ok ep) h = (
    (
      ground (
        arith,
        h.0,
        h.1,
        string_eq.beq_iff name.name ep.name,
        string_eq.beq_iff name.namespace ep.namespace,
      ),
      h.2,
    ),
    tt,
  )
  found_endpoint-All name (err not_found) h = tt
  found_endpoint-All name (err (failed e)) h = tt

  named_endpoints-All :
      (name : Option NamespacedName)
      → Returns Anything (All (IsNamed name)) (named_endpoints client name)
  unfolding named_endpoints
  named_endpoints-All none = tt
  named_endpoints-All (some name) =
      found_endpoint-All name (client.get_endpoint name) (coherent.named name)

  -- named by the group or chosen by its selectors
  abbrev pub IsMatched : EndpointGroup → Endpoint → Type 0
  IsMatched group ep =
      IsNamed group.spec.endpoint ep
      ⊎ IsChosen group.spec.namespace group.spec.namespace_selector group.spec.endpoint_selector ep

  pub matched_endpoints-All :
      (group : EndpointGroup)
      → group.spec.namespace ≢ some ""
      → (group.spec.namespace ≡ none) ⊎ (group.spec.namespace_selector ≡ none)
      → Returns Anything (All (IsMatched group)) (matched_endpoints client group)
  unfolding matched_endpoints
  matched_endpoints-All group space one =
      let spec = group.spec in
      Returns->>= Anything (All (Picks spec.namespace spec.namespace_selector))
        (All (IsMatched group)) (matched_namespaces client spec.namespace spec.namespace_selector)
        (λ namespaces. named_endpoints client spec.endpoint >>= λ named.
          endpoints_in client spec.endpoint_selector namespaces >>= λ selected.
          ok (named ++ selected))
        (matched_namespaces-Picks spec.namespace spec.namespace_selector space one)
        (λ namespaces inside.
          Returns->>= Anything (All (IsNamed spec.endpoint)) (All (IsMatched group))
            (named_endpoints client spec.endpoint)
            (λ named. endpoints_in client spec.endpoint_selector namespaces >>= λ selected.
              ok (named ++ selected))
            (named_endpoints-All spec.endpoint)
            (λ named here.
              Returns->>= Anything
                (All (IsChosen spec.namespace spec.namespace_selector spec.endpoint_selector))
                (All (IsMatched group)) (endpoints_in client spec.endpoint_selector namespaces)
                (λ selected. ok (named ++ selected))
                (endpoints_in-All spec.namespace spec.namespace_selector spec.endpoint_selector
                  namespaces inside)
                (λ selected there.
                  All-append (IsMatched group) named selected
                    (All-map (IsNamed spec.endpoint) (IsMatched group) (λ ep h. inl h) named here)
                    (All-map
                      (IsChosen spec.namespace spec.namespace_selector spec.endpoint_selector)
                      (IsMatched group) (λ ep h. inr h) selected there))))
