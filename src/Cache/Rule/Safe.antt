-- ===== src/Cache/Rule/Safe.antt =====
-- CompleteRule.ApplyPatch and GetPatchPolicyRules never write through a nil item, as long as a side
-- with a nil item (every address) has no group.
use everoute.Common.{
  ℕ, ◌≡◌, refl, ◌∙◌, ap, String, false, Option, some, List, [], ◌⊎◌, inl, inr, Bool-cases,
  string_eq,
}
use everoute.Common.Dict.{Dict, lookup, IsDistinct}
use everoute.Cache.{Blocks}
use everoute.Cache.Rule.{
  CompleteRule, RulePatch, PolicyRule, Env, ◌>>=◌, applies, apply_if, upgrade_if, apply_patch,
  get_patch_policy_rules,
}
use everoute.Cache.Rule.Count.{NoNil, apply_count_map-at}

abbrev pub SafeSide : Dict String ℕ → Blocks → Type 0
SafeSide groups blocks = (groups ≡ []) ⊎ NoNil blocks

-- a rule whose sides with a nil item have no group
pub record IsSafe (rule : CompleteRule) : Type 0 where
  pub src : SafeSide rule.src_groups rule.src_ip_blocks
  pub dst : SafeSide rule.dst_groups rule.dst_ip_blocks

-- a patch as NextPatch returns it: maps hold a key once
pub record IsPatch (patch : RulePatch) : Type 0 where
  pub add : IsDistinct patch.add
  pub del : IsDistinct patch.del

no_group_applies :
    (groups : Dict String ℕ) (patch : RulePatch) → groups ≡ [] → applies groups patch ≡ false
unfolding applies lookup
no_group_applies groups patch e = ap (λ (g : Dict String ℕ). applies g patch) e

side-SafeSide :
    (groups : Dict String ℕ) (blocks : Blocks) (patch : RulePatch)
    → IsPatch patch
    → SafeSide groups blocks
    → (c : Blocks) × (apply_if (applies groups patch) blocks patch ≡ some c)
      × SafeSide (upgrade_if (applies groups patch) groups patch) c
side-SafeSide groups blocks patch p (inl empty) =
    let idle = no_group_applies groups patch empty in
    (
      blocks,
      ap (λ b. apply_if b blocks patch) idle,
      inl (ap (λ b. upgrade_if b groups patch) idle ∙ empty),
    )
side-SafeSide groups blocks patch p (inr solid) = elim (Bool-cases (applies groups patch)) [
  | inl on ↦
      let (c, counted, solid', _) =
        apply_count_map-at blocks patch.add patch.del solid p.add p.del in
      (c, ap (λ b. apply_if b blocks patch) on ∙ counted, inr solid')
  | inr off ↦ (blocks, ap (λ b. apply_if b blocks patch) off, inr solid)
]

bind_both :
    {A B : Type 0} (x y : Option A) (a b : A) (f : A → A → B)
    → x ≡ some a
    → y ≡ some b
    → (x >>= λ s. y >>= λ d. some (f s d)) ≡ some (f a b)
bind_both x y a b f e g = rw (e, g) refl

-- ApplyPatch of a rule whose sides with a nil item have no group never writes through a nil item,
-- and the rule stays such a rule; GetPatchPolicyRules does not either.
pub apply_patch-IsSafe :
    (env : Env) (rule : CompleteRule) (patch : RulePatch)
    → IsPatch patch
    → IsSafe rule
    → (rule' : CompleteRule) × (apply_patch rule patch ≡ some rule')
      × IsSafe rule'
      × ((rules : List PolicyRule × List PolicyRule) × (get_patch_policy_rules env rule patch
            ≡ some rules))
unfolding apply_patch get_patch_policy_rules
apply_patch-IsSafe env rule patch p s =
    let (src, src_some, src_safe) =
      side-SafeSide rule.src_groups rule.src_ip_blocks patch p s.src in
    let (dst, dst_some, dst_safe) =
      side-SafeSide rule.dst_groups rule.dst_ip_blocks patch p s.dst in
    (
      _,
      bind_both (apply_if (applies rule.src_groups patch) rule.src_ip_blocks patch)
          (apply_if (applies rule.dst_groups patch) rule.dst_ip_blocks patch) src dst _ src_some
          dst_some,
      record { src = src_safe; dst = dst_safe },
      (
        _,
        bind_both (apply_if (applies rule.src_groups patch) rule.src_ip_blocks patch)
            (apply_if (applies rule.dst_groups patch) rule.dst_ip_blocks patch) src dst _ src_some
            dst_some,
      ),
    )
