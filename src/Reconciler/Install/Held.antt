-- ===== src/Reconciler/Install/Held.antt =====
-- What the calls of processPolicyRuleAdd and processPolicyRuleDelete leave in the datapath.
use mathlib.Core.Path.{subst, fun_ext}
use everoute.Common.{
  ℕ, ◌≡◌, refl, sym, ap, ◌∙◌, String, Bool, true, false, not, ◌&&◌, ◌||◌, Option, none, some, List,
  [], ◌∷◌, ◌==◌, nat_eq, string_eq, if◌then◌else◌, arith, inl, beq_refl,
}
use everoute.Common.Dict.{lookup}
use everoute.Cache.Rule.{Env, PolicyRule, generate_flow_key}
use everoute.Datapath.Rules.{
  EveroutePolicyRule, Place, DpManager, Switches, Outcome, new_dp_manager, add_everoute_policy_rule,
}
use everoute.Datapath.Rules.Loops.{IsReliable, AllDistinct}
use everoute.Datapath.Rules.Counted.{adds, removes, References, after, call_once, Implements}
use everoute.Datapath.Rules.Refines.{Ends}
use everoute.Datapath.Rules.Calls.{call-Ends}
use everoute.Datapath.Bridge.{is_accepted}
use everoute.Reconciler.Install.{
  flow_key_from_rule_name, process_policy_rule_add, process_policy_rule_delete,
  add_policy_rule_to_datapath, to_everoute_policy_rule, place_of,
}
use everoute.Reconciler.Install.Keys.{flow_key_from_rule_name-Sound}
use everoute.Reconciler.Install.Agreed.{
  flow_of, IsOfPolicy, IsOfPolicy-requested, requested_flow, to_everoute_policy_rule-flow_of,
}

pub data Step : Type 0 where
  installs : PolicyRule → Step
  uninstalls : String → Step

-- the names of the rules that are installed
abbrev pub Names : Type 0
Names = String → Bool

abbrev pub after_step : Step → Names → Names
after_step (installs r) names n = r.name == n || names n
after_step (uninstalls name) names n = not (name == n) && names n

abbrev pub after_steps : List Step → Names → Names
after_steps [] names = names
after_steps (step ∷ steps) names = after_steps steps (after_step step names)

-- A name refers to the rule whose ID is its last piece.
abbrev pub referring : Names → References
referring names id n = names n && flow_key_from_rule_name n == id

-- A rule is one of a policy, such as the bridges accept, whose flow can be told from its flow key; a name that is removed is that
-- of an installed rule.
abbrev pub IsStep : Env → (String → Bool) → (String → PolicyRule) → Step → Names → Type 0
IsStep env parses flow (installs r) names =
    IsOfPolicy env parses r × (flow_of r ≡ flow (generate_flow_key env r))
IsStep env parses flow (uninstalls name) names = names name ≡ true

abbrev pub AreSteps : Env → (String → Bool) → (String → PolicyRule) → List Step → Names → Type 0
AreSteps env parses flow [] names = Unit
AreSteps env parses flow (step ∷ steps) names =
    IsStep env parses flow step names × AreSteps env parses flow steps (after_step step names)

abbrev rule_or_empty : String → Option EveroutePolicyRule → EveroutePolicyRule
rule_or_empty id (some rule) = rule
rule_or_empty id none = record {
  rule_id = id;
  priority = 0;
  src_ip_addr = "";
  dst_ip_addr = "";
  ip_protocol = 0;
  src_port = 0;
  src_port_mask = 0;
  dst_port = 0;
  dst_port_mask = 0;
  action = "";
}

-- the rule that a flow key stands for
abbrev pub requested_rule : (String → PolicyRule) → String → EveroutePolicyRule
requested_rule flow id = rule_or_empty id (requested_flow id (flow id))

same_key : (name n : String) → name ≡ n → flow_key_from_rule_name name ≡ flow_key_from_rule_name n
same_key name n e = ap flow_key_from_rule_name e

after-adds :
    (rule : EveroutePolicyRule) (place : Place) (r : PolicyRule) (names : Names)
    → rule.rule_id ≡ flow_key_from_rule_name r.name
    → after (adds rule place r.name) (referring names) ≡ referring (after_step (installs r) names)
after-adds rule place r names at = fun_ext (λ id. fun_ext (λ n. ground (
  arith,
  at,
  string_eq.beq_iff r.name n,
  string_eq.beq_iff rule.rule_id id,
  string_eq.beq_iff (flow_key_from_rule_name n) id,
  same_key r.name n,
)))

after-removes :
    (name : String) (names : Names)
    → after (removes (flow_key_from_rule_name name) name) (referring names)
      ≡ referring (after_step (uninstalls name) names)
after-removes name names = fun_ext (λ id. fun_ext (λ n. ground (
  arith,
  string_eq.beq_iff name n,
  string_eq.beq_iff (flow_key_from_rule_name name) id,
  string_eq.beq_iff (flow_key_from_rule_name n) id,
  same_key name n,
)))

-- what the datapath is asked for is the rule that the flow key stands for
requested_rule-is :
    (env : Env) (parses : String → Bool) (flow : String → PolicyRule) (id : String) (r : PolicyRule)
    (rule : EveroutePolicyRule)
    → IsOfPolicy env parses r
    → flow_of r ≡ flow id
    → to_everoute_policy_rule id r ≡ some rule
    → rule ≡ requested_rule flow id
requested_rule-is env parses flow id r rule h same asked =
    ap (rule_or_empty id)
      (sym asked ∙ to_everoute_policy_rule-flow_of env parses id r h ∙ ap (requested_flow id) same)

module _ (switches : Switches) (bridges : List String) where
  open switches use {State}

  abbrev pub process_step : Step → DpManager → State → Option (Outcome State)
  process_step (installs r) m s = process_policy_rule_add switches bridges r m s
  process_step (uninstalls name) m s = process_policy_rule_delete switches bridges name m s

  abbrev pub process_steps : List Step → DpManager → State → Option (Outcome State)
  process_steps [] m s = some (record { manager = m; state = s; done = true })
  process_steps (step ∷ steps) m s = elim (process_step step m s) [
    | none ↦ none
    | some o ↦ if o.done then process_steps steps o.manager o.state else some o
  ]

  add_policy_rule_to_datapath-asked :
      (id : String) (r : PolicyRule) (rule : EveroutePolicyRule) (place : Place) (m : DpManager)
      (s : State)
      → to_everoute_policy_rule id r ≡ some rule
      → place_of r ≡ some place
      → add_policy_rule_to_datapath switches bridges id r m s
        ≡ some (add_everoute_policy_rule switches bridges rule r.name place m s)
  unfolding add_policy_rule_to_datapath
  add_policy_rule_to_datapath-asked id r rule place m s asked at =
      rw (asked, at, add_policy_rule_to_datapath) refl

  module _ (installed : State → String → ℕ → Bool) (distinct : AllDistinct bridges)
      (parses : String → Bool) (h : IsReliable switches installed (is_accepted parses)) (env : Env)
      (flow : String → PolicyRule) where
    abbrev Leaves : Option (Outcome State) → Names → Type 0
    Leaves end names =
        Ends switches bridges installed (requested_rule flow) distinct h end (referring names)

    step-Leaves :
        (step : Step) (m : DpManager) (s : State) (names : Names)
        → IsStep env parses flow step names
        → Implements switches bridges installed (requested_rule flow) m s (referring names)
        → Leaves (process_step step m s) (after_step step names)
    unfolding process_policy_rule_add process_policy_rule_delete
    step-Leaves (installs r) m s names fair inv =
        let id = flow_key_from_rule_name r.name in
        let key = flow_key_from_rule_name-Sound env fair.0.made r fair.0.sound in
        let (rule, place, asked, is_id, at, yes_rule) =
          IsOfPolicy-requested env parses id r fair.0 in
        let is =
          requested_rule-is env parses flow id r rule fair.0 (fair.1 ∙ ap flow (sym key)) asked in
        let ends =
          call-Ends switches bridges installed (requested_rule flow) distinct h
            (adds rule place r.name) m s (referring names)
            (is ∙ ap (requested_rule flow) (sym is_id), yes_rule) inv in
        rw (add_policy_rule_to_datapath-asked id r rule place m s asked at) (
          subst
            (Ends switches bridges installed (requested_rule flow) distinct h
              (call_once switches bridges (adds rule place r.name) m s))
            (after-adds rule place r names is_id) ends)
    step-Leaves (uninstalls name) m s names fair inv =
        let id = flow_key_from_rule_name name in
        subst
          (Ends switches bridges installed (requested_rule flow) distinct h
            (call_once switches bridges (removes id name) m s))
          (after-removes name names)
          (call-Ends switches bridges installed (requested_rule flow) distinct h (removes id name) m
            s (referring names) (inl (ground (arith, fair, beq_refl id))) inv)

    steps-Leave :
        (steps : List Step) (m : DpManager) (s : State) (names : Names)
        → AreSteps env parses flow steps names
        → Implements switches bridges installed (requested_rule flow) m s (referring names)
        → Leaves (process_steps steps m s) (after_steps steps names)
    steps-Leave [] m s names fair inv =
        (record { manager = m; state = s; done = true }, refl, refl, inv)
    steps-Leave (step ∷ steps) m s names fair inv =
        let (o, ended, done, inv') = step-Leaves step m s names fair.0 inv in
        let (o', ended', done', inv'') =
          steps-Leave steps o.manager o.state (after_step step names) fair.1 inv' in
        (o', rw (ended, done, process_steps) ended', done', inv'')

    pub process_steps-Implements :
        (steps : List Step) (s : State)
        → AreSteps env parses flow steps (λ name. false)
        → ((v : String) (n : ℕ) → installed s v n ≡ false)
        → (o : Outcome State) × (process_steps steps new_dp_manager s ≡ some o)
          × (o.done ≡ true)
          × Implements switches bridges installed
              (requested_rule flow)
              o.manager
              o.state
              (referring (after_steps steps (λ name. false)))
    unfolding lookup
    process_steps-Implements steps s fair none_there =
        steps-Leave steps new_dp_manager s (λ name. false) fair
          (record {
            holds = λ id n. refl;
            owned = λ v n b there. absurd (ground (arith, there, none_there v n));
            alone = λ i j v n b own own'. absurd (ground (arith, own));
          })
