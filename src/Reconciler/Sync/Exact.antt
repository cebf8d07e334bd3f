-- ===== src/Reconciler/Sync/Exact.antt =====
-- What a comparison of rule lists leaves in the datapath, with calls that fail and retries.
use mathlib.Core.Path.{subst}
use everoute.Common.{
  ◌≡◌, ◌≢◌, refl, ◌∙◌, ap, String, true, ◌⊎◌, inl, inr, Option, none, some, List, [], ◌∷◌,
  fold-keeps, nat_eq, string_eq, arith, Bool-cases,
}
use everoute.Common.Dict.{Dict, lookup, keys, is_some, lookup-insert, lookup-nil}
use everoute.Common.Set.{has}
use everoute.Cache.Rule.{PolicyRule}
use everoute.Reconciler.Sync.{Datapath, rule_is_same, put_rule, to_rule_map, apply_change}

-- What a name should hold in the end, by its old rule, its new rule and what it held: the new rule;
-- nothing, for an old rule that is not new; and else what it held.
abbrev pub target : Option PolicyRule → Option PolicyRule → Option PolicyRule → Option PolicyRule
target old (some new) held = some new
target (some old) none held = none
target none none held = held

-- a name holds what it held at first, or its target
abbrev pub OnTheWay :
    Option PolicyRule → Option PolicyRule → Option PolicyRule → Option PolicyRule → Type 0
OnTheWay old new held now = (now ≡ held) ⊎ (now ≡ target old new held)

-- a rule that is old and new is held
abbrev pub Kept : Option PolicyRule → Option PolicyRule → Option PolicyRule → Type 0
Kept old new held = (r : PolicyRule) → old ≡ some r → new ≡ some r → held ≡ some r

abbrev pub Named : String → Option PolicyRule → Type 0
Named name rule = (r : PolicyRule) → rule ≡ some r → r.name ≡ name

rule_is_same-eq : (a b : PolicyRule) → rule_is_same a b ≡ true → a ≡ b
unfolding rule_is_same
rule_is_same-eq a b h = ground (
  arith,
  string_eq.beq_iff a.name b.name,
  string_eq.beq_iff a.action b.action,
  string_eq.beq_iff a.direction b.direction,
  string_eq.beq_iff a.rule_type b.rule_type,
  string_eq.beq_iff a.tier b.tier,
  string_eq.beq_iff a.enforcement_mode b.enforcement_mode,
  string_eq.beq_iff a.src_ip_addr b.src_ip_addr,
  string_eq.beq_iff a.dst_ip_addr b.dst_ip_addr,
  string_eq.beq_iff a.ip_protocol b.ip_protocol,
)

pub to_rule_map-Named :
    (rules : List PolicyRule) (name : String) → Named name (lookup name (to_rule_map rules))
unfolding to_rule_map
to_rule_map-Named rules =
    fold-keeps (λ m. (name : String) → Named name (lookup name m)) put_rule
      (λ m x h name r e.
        ground (arith, h name r, e, lookup-insert x.name name x m, string_eq.beq_iff x.name name))
      [] rules (λ name r e. absurd (ground (arith, e, lookup-nil {V = PolicyRule} name)))

pub has-keys :
    (m : Dict String PolicyRule) (name : String) → has name (keys m) ≡ is_some (lookup name m)
unfolding has lookup
has-keys [] name = refl
has-keys ((k, r) ∷ m) name = ground (arith, has-keys m name)

module _ (d : Datapath) where
  open d use {
    State, holds, add_rule, remove_rule, added, add_failed, add_other, removed, remove_failed,
    remove_other,
  }

  -- one change at its own name: it is on the way still, and at its target if the call succeeded
  abbrev pub Changed :
      Option PolicyRule → Option PolicyRule → Option PolicyRule → State → String → Type 0
  Changed old new held s name =
      OnTheWay old new held (holds s name)
      → OnTheWay old new held (holds (apply_change d old new s).0 name)
        × ((apply_change d old new s).1 ≡ true
            → holds (apply_change d old new s).0 name ≡ target old new held)

  add-Changed :
      (new : PolicyRule) (held : Option PolicyRule) (s : State)
      → OnTheWay none (some new) held (holds s new.name)
      → OnTheWay none (some new) held (holds (add_rule new s).0 new.name)
        × ((add_rule new s).1 ≡ true → holds (add_rule new s).0 new.name ≡ some new)
  add-Changed new held s way = (
    elim (add_failed new s) [
      | inl there ↦ inr there
      | inr same ↦ elim way [ inl h ↦ inl (same ∙ h) | inr h ↦ inr (same ∙ h) ]
    ],
    added new s,
  )

  pub change-Changed :
      (old new held : Option PolicyRule) (s : State) (name : String)
      → Named name old
      → Named name new
      → Kept old new held
      → Changed old new held s name
  unfolding apply_change
  change-Changed none none held s name o_named n_named kept way =
      (way, λ _. elim way [ inl h ↦ h | inr h ↦ h ])
  change-Changed (some old) none held s name o_named n_named kept way =
      subst (Changed (some old) none held s) (o_named old refl)
        (λ at_name. (
          elim (remove_failed old.name s) [
            | inl gone ↦ inr gone
            | inr same ↦ elim at_name [ inl h ↦ inl (same ∙ h) | inr h ↦ inr (same ∙ h) ]
          ],
          removed old.name s,
        ))
        way
  change-Changed none (some new) held s name o_named n_named kept way =
      subst (Changed none (some new) held s) (n_named new refl) (add-Changed new held s) way
  change-Changed (some old) (some new) held s name o_named n_named kept way =
      elim (Bool-cases (rule_is_same old new)) [
        | inl same ↦
            let eq = rule_is_same-eq old new same in
            let here : held ≡ some new = kept new (ap some eq) refl in
            rw same (way, λ _. elim way [ inl h ↦ h ∙ here | inr h ↦ h ])
        | inr other ↦ rw other (
            subst
              (λ n.
                OnTheWay none (some new) held (holds s n)
                → OnTheWay none (some new) held (holds (add_rule new s).0 n)
                  × ((add_rule new s).1 ≡ true → holds (add_rule new s).0 n ≡ some new))
              (n_named new refl) (add-Changed new held s) way)
      ]

  -- a change at another name
  pub change-other :
      (old new : Option PolicyRule) (s : State) (name other : String)
      → Named name old
      → Named name new
      → other ≢ name
      → holds (apply_change d old new s).0 other ≡ holds s other
  unfolding apply_change
  change-other none none s name other o_named n_named ne = refl
  change-other (some old) none s name other o_named n_named ne =
      remove_other old.name s other (λ e. ne (e ∙ o_named old refl))
  change-other none (some new) s name other o_named n_named ne =
      add_other new s other (λ e. ne (e ∙ n_named new refl))
  change-other (some old) (some new) s name other o_named n_named ne =
      elim (Bool-cases (rule_is_same old new)) [
        | inl same ↦ rw same refl
        | inr differs ↦ rw differs (add_other new s other (λ e. ne (e ∙ n_named new refl)))
      ]
