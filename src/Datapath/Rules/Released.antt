-- ===== src/Datapath/Rules/Released.antt =====
-- RemoveEveroutePolicyRule takes a reference away, on switches that carry out the calls.
use mathlib.Core.Path.{subst}
use everoute.Common.{
  ℕ, ◌≡◌, refl, ap, ◌∙◌, String, Bool, true, false, none, some, List, [], ◌∷◌, ◌++◌, nat_eq,
  string_eq, arith, Bool-cases, inl, inr, Option-cases, beq_refl,
}
use everoute.Common.Dict.{lookup, insert, delete, lookup-insert, lookup-delete}
use everoute.Common.Set.{has, remove, has-remove}
use everoute.Datapath.Rules.{
  Place, EveroutePolicyRule, EveroutePolicyRuleEntry, DpManager, Switches, Outcome, is_empty,
}
use everoute.Datapath.Rules.Removal.{remove_everoute_policy_rule, forget, remove_flows}
use everoute.Datapath.Rules.Loops.{IsReliable, AllDistinct, remove_flows-Removes}
use everoute.Datapath.Rules.Counted.{
  removes, References, after, IsFair, call_once, Holds, Implements, put-Implements, Holds-keep,
}
use everoute.Datapath.Rules.Refines.{Ends, refers-Implements}

empty-has : (a : String) (xs : List String) → is_empty xs ≡ true → has a xs ≡ false
unfolding has
empty-has a [] h = refl
empty-has a (x ∷ xs) h = absurd (ground (arith, h))

has-some : (xs : List String) → ((n : String) → has n xs ≡ false) → is_empty xs ≡ true
unfolding has
has-some [] h = refl
has-some (x ∷ xs) h = absurd (ground (arith, h x, beq_refl x))

module _ (switches : Switches) (bridges : List String)
    (installed : switches.State → String → ℕ → Bool) (body : String → EveroutePolicyRule)
    (distinct : AllDistinct bridges) {accepts : EveroutePolicyRule → Place → Bool}
    (h : IsReliable switches installed accepts) where
  open switches use {State}

  -- no name refers to the rule
  absent-Ends :
      (id name : String) (m : DpManager) (s : State) (refers : References)
      → lookup id m.rules ≡ none
      → Implements switches bridges installed body m s refers
      → Ends switches bridges installed body distinct h
          (call_once switches bridges (removes id name) m s)
          (after (removes id name) refers)
  unfolding remove_everoute_policy_rule
  absent-Ends id name m s refers at inv =
      let nobody =
        subst (Holds switches bridges installed body s id (refers id)) at (inv.holds id) in
      (
        record { manager = m; state = s; done = true },
        rw at refl,
        refl,
        record {
          holds = λ j.
              Holds-keep switches bridges installed body s s j (refers j)
                (after (removes id name) refers j) (lookup j m.rules)
                (λ n. ground (arith, nobody n, string_eq.beq_iff id j, ap (λ k. refers k n)))
                (λ v n b own there. there) (inv.holds j);
          owned = inv.owned;
          alone = inv.alone;
        },
      )

  -- another name still refers to the rule
  left-Ends :
      (id name : String) (m : DpManager) (s : State) (refers : References)
      (entry : EveroutePolicyRuleEntry)
      → lookup id m.rules ≡ some entry
      → refers id name ≡ true
      → is_empty (remove name entry.policy_rule_reference) ≡ false
      → Implements switches bridges installed body m s refers
      → Ends switches bridges installed body distinct h
          (call_once switches bridges (removes id name) m s)
          (after (removes id name) refers)
  unfolding remove_everoute_policy_rule
  left-Ends id name m s refers entry at mine some_name inv =
      let held = subst (Holds switches bridges installed body s id (refers id)) at (inv.holds id) in
      let left = remove name entry.policy_rule_reference in
      let m' = record m {
        rules = insert id (record entry { policy_rule_reference = left }) m.rules;
      } in
      (
        record { manager = m'; state = s; done = true },
        rw (at, held.1 name, mine, some_name) refl,
        refl,
        refers-Implements switches bridges installed body distinct h m s refers
            (after (removes id name) refers) id entry left at
            (λ n.
              ground (arith, has-remove name n entry.policy_rule_reference, held.1 n, beq_refl id))
            some_name (λ j n other. ground (arith, other)) inv,
      )

  last-call :
      (id name : String) (m : DpManager) (s : State) (entry : EveroutePolicyRuleEntry)
      (left : List String) (o : Outcome State)
      → lookup id m.rules ≡ some entry
      → has name entry.policy_rule_reference ≡ true
      → remove name entry.policy_rule_reference ≡ left
      → is_empty left ≡ true
      → remove_flows switches bridges entry.rule_flow_map
          (record m { rules = insert id (record entry { policy_rule_reference = left }) m.rules })
          s
        ≡ some o
      → o.done ≡ true
      → call_once switches bridges (removes id name) m s
        ≡ some (record o {
          manager =
              forget switches id
                (record entry { policy_rule_reference = left })
                (record o.manager {
                  cleaned = o.manager.cleaned ++ entry.everoute_policy_rule ∷ [];
                });
        })
  unfolding remove_everoute_policy_rule
  last-call id name m s entry left o at mine rest no_name ended done =
      rw (at, mine, rest, no_name, ended, done) (rw no_name refl)

  -- the last name goes
  last-Ends :
      (id name : String) (m : DpManager) (s : State) (refers : References)
      (entry : EveroutePolicyRuleEntry)
      → lookup id m.rules ≡ some entry
      → refers id name ≡ true
      → is_empty (remove name entry.policy_rule_reference) ≡ true
      → Implements switches bridges installed body m s refers
      → Ends switches bridges installed body distinct h
          (call_once switches bridges (removes id name) m s)
          (after (removes id name) refers)
  unfolding remove_everoute_policy_rule
  last-Ends id name m s refers entry at mine no_name inv =
      let held = subst (Holds switches bridges installed body s id (refers id)) at (inv.holds id) in
      let left = record entry { policy_rule_reference = remove name entry.policy_rule_reference } in
      let m' = record m { rules = insert id left m.rules } in
      let (o, ended, done, same, exact) =
        remove_flows-Removes switches installed h bridges entry.rule_flow_map m' s
          (λ v b. let (flow, is, there) = held.3 v b in (flow, is)) in
      let m'' =
        forget switches id left
          (record o.manager { cleaned = o.manager.cleaned ++ left.everoute_policy_rule ∷ [] }) in
      (
        record o { manager = m'' },
        last-call id name m s entry left.policy_rule_reference o at (held.1 name ∙ mine) refl
            no_name ended done,
        done,
        put-Implements switches bridges installed body m m'' s o.state refers
            (after (removes id name) refers) id none
            (λ j. ground (
              arith,
              no_name,
              ap (lookup j) (ap (delete id) same),
              lookup-delete id j m'.rules,
              lookup-insert id j left m.rules,
            ))
            (λ n. ground (
              arith,
              has-remove name n entry.policy_rule_reference,
              empty-has n left.policy_rule_reference no_name,
              held.1 n,
              beq_refl id,
            ))
            (λ j n other. ground (arith, other)) (λ v n b. ground (arith, exact v n, b, at))
            (λ v n b own. absurd (ground (arith, own))) inv,
      )

  pub remove-Ends :
      (id name : String) (m : DpManager) (s : State) (refers : References)
      → IsFair accepts body (removes id name) refers
      → Implements switches bridges installed body m s refers
      → Ends switches bridges installed body distinct h
          (call_once switches bridges (removes id name) m s)
          (after (removes id name) refers)
  remove-Ends id name m s refers fair inv = elim (Option-cases (lookup id m.rules)) [
    | inl absent ↦ absent-Ends id name m s refers absent inv
    | inr (entry, at) ↦
        let held =
          subst (Holds switches bridges installed body s id (refers id)) at (inv.holds id) in
        let mine : refers id name ≡ true = elim fair [
          | inl mine ↦ mine
          | inr nobody ↦ absurd (
              ground
                (arith, held.2, has-some entry.policy_rule_reference (λ n. held.1 n ∙ nobody n)))
        ] in
        elim (Bool-cases (is_empty (remove name entry.policy_rule_reference))) [
          | inl no_name ↦ last-Ends id name m s refers entry at mine no_name inv
          | inr some_name ↦ left-Ends id name m s refers entry at mine some_name inv
        ]
  ]
