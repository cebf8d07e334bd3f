-- ===== src/Datapath/Rules/Counted.antt =====
-- The database of rules counts the names that refer to a rule: a sequence of calls refines a set of
-- pairs of a rule and a name.
use everoute.Common.{
  ℕ, ◌≡◌, sym, ap, ◌∙◌, String, Bool, true, false, not, ◌&&◌, ◌||◌, ◌⊎◌, Option, none, some, List,
  [], ◌∷◌, ◌==◌, nat_eq, string_eq, arith, Bool-cases, inl, inr, if◌then◌else◌, beq_refl,
}
use mathlib.Core.Path.{subst}
use everoute.Common.Dict.{lookup}
use everoute.Common.Set.{has}
use everoute.Datapath.Rules.{
  EveroutePolicyRule, EveroutePolicyRuleEntry, Place, FlowEntry, DpManager, Switches, Outcome,
  add_everoute_policy_rule, is_empty,
}
use everoute.Datapath.Rules.Removal.{remove_everoute_policy_rule}
use everoute.Datapath.Rules.Loops.{is_flow}

-- a rule is added under the name of a policy rule, and removed by its ID under such a name
pub data Call : Type 0 where
  adds : EveroutePolicyRule → Place → String → Call
  removes : String → String → Call

-- which names refer to which rules
abbrev pub References : Type 0
References = String → String → Bool

abbrev pub same_pair : String → String → String → String → Bool
same_pair id name i n = id == i && name == n

abbrev pub after : Call → References → References
after (adds rule place name) refers i n = same_pair rule.rule_id name i n || refers i n
after (removes id name) refers i n = not (same_pair id name i n) && refers i n

-- Rules with one ID are one rule, and accepted. A rule is removed under a name that refers to it, or when no name
-- does.
abbrev pub IsFair :
    (EveroutePolicyRule → Place → Bool) → (String → EveroutePolicyRule) → Call → References → Type 0
IsFair accepts body (adds rule place name) refers =
    (rule ≡ body rule.rule_id) × (accepts rule place ≡ true)
IsFair accepts body (removes id name) refers =
    (refers id name ≡ true) ⊎ ((n : String) → refers id n ≡ false)

abbrev pub AreFair :
    (EveroutePolicyRule → Place → Bool)
    → (String → EveroutePolicyRule)
    → List Call
    → References
    → Type 0
AreFair accepts body [] refers = Unit
AreFair accepts body (call ∷ calls) refers =
    IsFair accepts body call refers × AreFair accepts body calls (after call refers)

abbrev pub all_after : List Call → References → References
all_after [] refers = refers
all_after (call ∷ calls) refers = all_after calls (after call refers)

module _ (switches : Switches) (bridges : List String) where
  open switches use {State}

  abbrev pub call_once : Call → DpManager → State → Option (Outcome State)
  call_once (adds rule place name) m s =
      some (add_everoute_policy_rule switches bridges rule name place m s)
  call_once (removes id name) m s = remove_everoute_policy_rule switches bridges id name m s

  -- the calls one after the other, to the first that fails
  abbrev pub call_all : List Call → DpManager → State → Option (Outcome State)
  call_all [] m s = some (record { manager = m; state = s; done = true })
  call_all (call ∷ calls) m s = elim (call_once call m s) [
    | none ↦ none
    | some o ↦ if o.done then call_all calls o.manager o.state else some o
  ]

  module _ (installed : State → String → ℕ → Bool) (body : String → EveroutePolicyRule) where
    -- what the database has under an ID to which the given names refer
    abbrev pub Holds : State → String → (String → Bool) → Option EveroutePolicyRuleEntry → Type 0
    Holds s id names none = (n : String) → names n ≡ false
    Holds s id names (some entry) =
        (entry.everoute_policy_rule ≡ body id)
        × ((n : String) → has n entry.policy_rule_reference ≡ names n)
        × (is_empty entry.policy_rule_reference ≡ false)
        × ((v : String)
            → has v bridges ≡ true
            → (flow : FlowEntry) × (lookup v entry.rule_flow_map ≡ some flow)
              × (installed s v flow.flow_id ≡ true))

    -- whether an entry has a flow, and the rule with an ID
    abbrev pub has_flow : Option EveroutePolicyRuleEntry → String → ℕ → Bool
    has_flow none v n = false
    has_flow (some entry) v n = is_flow n (lookup v entry.rule_flow_map)

    abbrev pub owns : DpManager → String → String → ℕ → Bool
    owns m id = has_flow (lookup id m.rules)

    -- The database holds the rules to which a name refers, with those names and a flow on each
    -- bridge. Every flow of a bridge is that of one rule.
    pub record Implements (m : DpManager) (s : State) (refers : References) : Type 0 where
      pub holds : (id : String) → Holds s id (refers id) (lookup id m.rules)
      pub owned :
          (v : String) (n : ℕ)
          → has v bridges ≡ true
          → installed s v n ≡ true
          → (id : String) × (owns m id v n ≡ true)
      pub alone :
          (id id' : String) (v : String) (n : ℕ)
          → has v bridges ≡ true
          → owns m id v n ≡ true
          → owns m id' v n ≡ true
          → id ≡ id'

    pub Holds-keep :
        (s s' : State) (id : String) (names names' : String → Bool)
        (o : Option EveroutePolicyRuleEntry)
        → ((n : String) → names' n ≡ names n)
        → ((v : String) (n : ℕ)
            → has v bridges ≡ true
            → has_flow o v n ≡ true
            → installed s v n ≡ true
            → installed s' v n ≡ true)
        → Holds s id names o
        → Holds s' id names' o
    Holds-keep s s' id names names' none same keep h = λ n. same n ∙ h n
    Holds-keep s s' id names names' (some entry) same keep h = (
      h.0,
      λ n. h.1 n ∙ sym (same n),
      h.2,
      λ v b.
          let (flow, at, there) = h.3 v b in
          (
            flow,
            at,
            keep v flow.flow_id b (ground (arith, at, nat_eq.beq_iff flow.flow_id flow.flow_id))
                there,
          ),
    )

    pub Holds-installed :
        (s : State) (id : String) (names : String → Bool) (o : Option EveroutePolicyRuleEntry)
        (v : String) (n : ℕ)
        → Holds s id names o
        → has v bridges ≡ true
        → has_flow o v n ≡ true
        → installed s v n ≡ true
    Holds-installed s id names none v n h b own = absurd (ground (arith, own))
    Holds-installed s id names (some entry) v n h b own =
        let (flow, at, there) = h.3 v b in
        let e : flow.flow_id ≡ n = ground (arith, at, own, nat_eq.beq_iff flow.flow_id n) in
        ap (installed s v) (sym e) ∙ there

    -- One entry is written, and the flows of a bridge are those of the entry and those that no
    -- entry under the ID had.
    module _ (m m' : DpManager) (s s' : State) (refers refers' : References) (id : String)
        (o : Option EveroutePolicyRuleEntry)
        (rules : (j : String) → lookup j m'.rules ≡ (if id == j then o else lookup j m.rules))
        (here : Holds s' id (refers' id) o)
        (others : (j n : String) → id == j ≡ false → refers' j n ≡ refers j n)
        (exact : (v : String) (n : ℕ)
          → has v bridges ≡ true
          → installed s' v n ≡ (has_flow o v n || (not (owns m id v n) && installed s v n)))
        (fresh : (v : String) (n : ℕ)
          → has v bridges ≡ true
          → has_flow o v n ≡ true
          → (owns m id v n ≡ true) ⊎ (installed s v n ≡ false))
        (h : Implements m s refers) where
      not_mine :
          (j v : String) (n : ℕ)
          → id == j ≡ false
          → has v bridges ≡ true
          → owns m j v n ≡ true
          → owns m id v n ≡ false
      not_mine j v n other b own = elim (Bool-cases (owns m id v n)) [
        | inr no_flow ↦ no_flow
        | inl mine ↦ absurd (ground (arith, other, h.alone id j v n b mine own, beq_refl id))
      ]

      owns-put :
          (j v : String) (n : ℕ)
          → owns m' j v n ≡ (if id == j then has_flow o v n else owns m j v n)
      owns-put j v n = elim (Bool-cases (id == j)) [
        | inl same ↦ ground (arith, same, ap (λ x. has_flow x v n) (rules j))
        | inr other ↦ ground (arith, other, ap (λ x. has_flow x v n) (rules j))
      ]

      no_clash :
          (j v : String) (n : ℕ)
          → id == j ≡ false
          → has v bridges ≡ true
          → has_flow o v n ≡ true
          → owns m j v n ≡ true
          → ⊥
      no_clash j v n other b new own = elim (fresh v n b new) [
        | inl mine ↦ ground (arith, mine, not_mine j v n other b own)
        | inr absent ↦
            let there = Holds-installed s j (refers j) (lookup j m.rules) v n (h.holds j) b own in
            ground (arith, absent, there)
      ]

      put-Holds : (j : String) → Holds s' j (refers' j) (lookup j m'.rules)
      put-Holds j = elim (Bool-cases (id == j)) [
        | inl same ↦
            let at : lookup j m'.rules ≡ o = ground (arith, rules j, same) in
            let e : id ≡ j = (string_eq.beq_iff id j).0 same in
            rw at (subst (λ k. Holds s' k (refers' k) o) e here)
        | inr other ↦
            let at : lookup j m'.rules ≡ lookup j m.rules = ground (arith, rules j, other) in
            rw at (
              Holds-keep s s' j (refers j) (refers' j) (lookup j m.rules) (λ n. others j n other)
                (λ v n b own there. ground (arith, exact v n b, there, not_mine j v n other b own))
                (h.holds j))
      ]

      put-owned :
          (v : String) (n : ℕ)
          → has v bridges ≡ true
          → installed s' v n ≡ true
          → (j : String) × (owns m' j v n ≡ true)
      put-owned v n b there = elim (Bool-cases (has_flow o v n)) [
        | inl new ↦ (id, ground (arith, new, owns-put id v n, beq_refl id))
        | inr old ↦
            let (j, own) = h.owned v n b (ground (arith, exact v n b, there, old)) in
            (
              j,
              ground (arith, own, owns-put j v n, exact v n b, there, old, string_eq.beq_iff id j),
            )
      ]

      put-alone :
          (i j v : String) (n : ℕ)
          → has v bridges ≡ true
          → owns m' i v n ≡ true
          → owns m' j v n ≡ true
          → i ≡ j
      put-alone i j v n b own own' = ground (
        arith,
        owns-put i v n,
        owns-put j v n,
        own,
        own',
        string_eq.beq_iff id i,
        string_eq.beq_iff id j,
        no_clash i v n,
        no_clash j v n,
        h.alone i j v n b,
        b,
      )

      pub put-Implements : Implements m' s' refers'
      put-Implements = record { holds = put-Holds; owned = put-owned; alone = put-alone }
