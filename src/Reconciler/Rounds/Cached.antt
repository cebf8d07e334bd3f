-- ===== src/Reconciler/Rounds/Cached.antt =====
-- The rule cache after the rules of a policy are added, by their IDs.
use everoute.Common.{
  ℕ, ◌≡◌, refl, ap, ◌∙◌, String, none, List, [], ◌∷◌, arith, string_eq, sym, fold, any, All, false,
  ◌++◌, ◌==◌,
}
use mathlib.Core.List.{append-nil, append_assoc}
use everoute.Common.Dict.{Dict, lookup, insert, values, lookup-insert}
use everoute.Cache.Rule.{CompleteRule, Env}
use everoute.Reconciler.Sync.{Datapath}
use everoute.Reconciler.Rounds.{add_to_cache}

-- no rule has the ID of another
abbrev pub IdsDiffer : List CompleteRule → Type 0
IdsDiffer [] = Unit
IdsDiffer (rule ∷ rules) = (any (λ r. r.rule_id == rule.rule_id) rules ≡ false) × IdsDiffer rules

abbrev pub Fresh : Dict String CompleteRule → List CompleteRule → Type 0
Fresh cached = All (λ rule. lookup rule.rule_id cached ≡ none)

values-insert :
    (rule : CompleteRule) (cached : Dict String CompleteRule)
    → lookup rule.rule_id cached ≡ none
    → values (insert rule.rule_id rule cached) ≡ values cached ++ rule ∷ []
unfolding lookup insert
values-insert rule [] h = refl
values-insert rule ((id, r) ∷ cached) h = ground (arith, h, values-insert rule cached)

insert-Fresh :
    (rule : CompleteRule) (cached : Dict String CompleteRule) (rules : List CompleteRule)
    → any (λ r. r.rule_id == rule.rule_id) rules ≡ false
    → Fresh cached rules
    → Fresh (insert rule.rule_id rule cached) rules
insert-Fresh rule cached [] differ fresh = tt
insert-Fresh rule cached (r ∷ rules) differ fresh = (
  ground (
    arith,
    lookup-insert rule.rule_id r.rule_id rule cached,
    differ,
    fresh.0,
    string_eq.beq_iff rule.rule_id r.rule_id,
    string_eq.beq_iff r.rule_id rule.rule_id,
  ),
  insert-Fresh rule cached rules (ground (arith, differ)) fresh.1,
)

-- rules with different IDs all stand in the cache
pub values-add_to_cache :
    (env : Env) (d : Datapath) (attempts : ℕ) (rules : List CompleteRule)
    (cached : Dict String CompleteRule)
    → IdsDiffer rules
    → Fresh cached rules
    → values (fold (add_to_cache env d attempts) cached rules) ≡ values cached ++ rules
unfolding add_to_cache
values-add_to_cache env d attempts [] cached differ fresh = sym (append-nil (values cached))
values-add_to_cache env d attempts (rule ∷ rules) cached differ fresh =
    values-add_to_cache env d attempts rules (insert rule.rule_id rule cached) differ.1
      (insert-Fresh rule cached rules differ.0 fresh.1)
    ∙ ap (λ xs. xs ++ rules) (values-insert rule cached fresh.0)
    ∙ append_assoc (values cached) (rule ∷ []) rules

pub empty-Fresh : (rules : List CompleteRule) → Fresh [] rules
unfolding lookup
empty-Fresh [] = tt
empty-Fresh (rule ∷ rules) = (refl, empty-Fresh rules)
