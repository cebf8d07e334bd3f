-- ===== src/Cache/Rule/Patch.antt =====
-- CompleteRule.ApplyPatch by revisions: a patch is applied to a rule once, and an address that two
-- members share.
use everoute.Common.{
  ℕ, ◌<◌, ◌≡◌, ◌≢◌, refl, ap, ◌∙◌, String, true, false, none, some, [], ◌∷◌, ◌==◌, nat_eq,
  string_eq, if◌then◌else◌, arith, Option-cases, beq_refl, inl, inr,
}
use everoute.Common.Dict.{Dict, lookup, lookup-insert, lookup-nil}
use everoute.Common.Set.{delete_all, remove}
use everoute.Cache.{IpBlockItem, Blocks, i32_mod, next_revision}
use everoute.Cache.Rule.{
  CompleteRule, RulePatch, applies, apply_if, upgrade_if, apply_patch, apply_count_map, reduce,
  is_unused,
}
use everoute.Cache.Rule.Count.{NoNil, apply_count_map-at}

next_revision-ne : (r : ℕ) → r < i32_mod → next_revision r ≢ r
unfolding next_revision
next_revision-ne r h e = omega arith

-- after the upgrade of its revision a group does not take the patch again
applies-upgrade :
    (groups : Dict String ℕ) (patch : RulePatch)
    → patch.revision < i32_mod
    → applies (upgrade_if (applies groups patch) groups patch) patch ≡ false
unfolding applies
applies-upgrade groups patch small = ground (
  arith,
  lookup-insert patch.group_name patch.group_name (next_revision patch.revision) groups,
  string_eq.beq_iff patch.group_name patch.group_name,
  next_revision-ne patch.revision small,
)

-- what ApplyPatch returns
pub apply_patch-fields :
    (rule rule' : CompleteRule) (patch : RulePatch)
    → apply_patch rule patch ≡ some rule'
    → (src dst : Blocks) × (apply_if (applies rule.src_groups patch) rule.src_ip_blocks patch
        ≡ some src)
      × (apply_if (applies rule.dst_groups patch) rule.dst_ip_blocks patch ≡ some dst)
      × (rule' ≡ record rule {
        src_ip_blocks = src;
        src_groups = upgrade_if (applies rule.src_groups patch) rule.src_groups patch;
        dst_ip_blocks = dst;
        dst_groups = upgrade_if (applies rule.dst_groups patch) rule.dst_groups patch;
      })
unfolding apply_patch
apply_patch-fields rule rule' patch h =
    elim (Option-cases (apply_if (applies rule.src_groups patch) rule.src_ip_blocks patch)) [
      | inl fault ↦ absurd (ground arith)
      | inr (src, a) ↦
          elim (Option-cases (apply_if (applies rule.dst_groups patch) rule.dst_ip_blocks patch)) [
            | inl fault ↦ absurd (ground arith)
            | inr (dst, b) ↦ (src, dst, a, b, ground arith)
          ]
    ]

apply_patch-idle :
    (rule : CompleteRule) (patch : RulePatch)
    → applies rule.src_groups patch ≡ false
    → applies rule.dst_groups patch ≡ false
    → apply_patch rule patch ≡ some rule
unfolding apply_patch
apply_patch-idle rule patch no_src no_dst = rw (no_src, no_dst)

-- Once ApplyPatch has returned, no group of the rule takes the same patch again, and a second call
-- leaves the rule as it is.
pub apply_patch-once :
    (rule rule' : CompleteRule) (patch : RulePatch)
    → patch.revision < i32_mod
    → apply_patch rule patch ≡ some rule'
    → (applies rule'.src_groups patch ≡ false)
      × (applies rule'.dst_groups patch ≡ false)
      × (apply_patch rule' patch ≡ some rule')
apply_patch-once rule rule' patch small h =
    let (src, dst, a, b, shape) = apply_patch-fields rule rule' patch h in
    let no_src : applies rule'.src_groups patch ≡ false =
      ap (λ (r : CompleteRule). applies r.src_groups patch) shape
      ∙ applies-upgrade rule.src_groups patch small in
    let no_dst : applies rule'.dst_groups patch ≡ false =
      ap (λ (r : CompleteRule). applies r.dst_groups patch) shape
      ∙ applies-upgrade rule.dst_groups patch small in
    (no_src, no_dst, apply_patch-idle rule' patch no_src no_dst)

-- a group moves to the next revision exactly if it is at the revision of the patch
pub lookup-upgrade :
    (groups : Dict String ℕ) (patch : RulePatch) (g : String)
    → lookup g (upgrade_if (applies groups patch) groups patch) ≡ (
        if patch.group_name == g
        then (if applies groups patch
            then some (next_revision patch.revision)
            else lookup patch.group_name groups)
        else lookup g groups)
lookup-upgrade groups patch g = ground (
  arith,
  lookup-insert patch.group_name g (next_revision patch.revision) groups,
  string_eq.beq_iff patch.group_name g,
)

unused :
    (agent : String) (item gone : IpBlockItem)
    → item.agent_ref ≡ agent ∷ []
    → item.static_count ≡ 0
    → gone.agent_ref ≡ agent ∷ []
    → is_unused (reduce item (some gone)) ≡ true
unfolding reduce delete_all remove
unused agent item gone refs static refs' = rw (refs, refs', static, beq_refl agent) (ground arith)

-- The deletion of the one agent of an address removes the address.
pub last_agent_deleted :
    (count : Blocks) (cidr agent : String) (item gone : IpBlockItem)
    → NoNil count
    → lookup cidr count ≡ some (some item)
    → item.agent_ref ≡ agent ∷ []
    → item.static_count ≡ 0
    → gone.agent_ref ≡ agent ∷ []
    → (result : Blocks) × (apply_count_map count [] ((cidr, some gone) ∷ []) ≡ some result)
      × (lookup cidr result ≡ none)
unfolding lookup
last_agent_deleted count cidr agent item gone clean stored refs static refs' =
    let (result, returned, _, entry) =
      apply_count_map-at count [] ((cidr, some gone) ∷ []) clean tt (lookup-nil cidr, tt) in
    (
      result,
      returned,
      entry cidr ∙ rw (stored, beq_refl cidr, unused agent item gone refs static refs') refl,
    )
