-- ===== src/Reconciler/Rounds/Drain.antt =====
-- ReconcilePatch does not end the process, and rounds of it use up the patches of a group.
use everoute.Common.{
  ℕ, zero, suc, ◌+◌, ◌≡◌, refl, sym, String, not, none, some, List, [], ◌∷◌, fold, All, ◌==◌,
  nat_eq, string_eq, arith, ok, Option-cases, inl, inr, fold-keeps, Bool-cases, ◌<◌, ◌≢◌, length,
}
use mathlib.Core.Path.{subst}
use everoute.Common.Dict.{lookup, IsDistinct, insert-IsDistinct}
use everoute.Api.{GroupMember, GroupMembersPatch, NamedPort, reference_eq}
use everoute.Cache.{Items, add_member, add_address}
use everoute.Cache.Group.{
  GroupCache, GroupPatch, GroupMembership, next_patch, patch_len, patches_of, to_group_patch,
  add_known, Endpoints, Patches,
}
use everoute.Cache.Group.Progress.{apply_patch-next_patch, next_patch-cases}
use everoute.Cache.Group.Steps.{AllDistinct, apply_patch-AllDistinct}
use everoute.Cache.Rule.{CompleteRule, RulePatch, Env}
use everoute.Cache.Rule.Safe.{IsSafe, IsPatch, apply_patch-IsSafe}
use everoute.Reconciler.Sync.{Datapath, sync_policy_rules_until_success}
use everoute.Reconciler.Rounds.{
  to_blocks, rule_patch, idle, worked, patch_rule, patch_rules, reconcile_patch, rounds,
}

-- the maps of a patch hold an address once
add_address-IsDistinct :
    (agents : List String) (ports : List NamedPort) (items : Items) (ip : String)
    → IsDistinct items
    → IsDistinct (add_address agents ports items ip)
unfolding add_address
add_address-IsDistinct agents ports items ip d = insert-IsDistinct _ _ items d

add_member-IsDistinct :
    (items : Items) (m : GroupMember) → IsDistinct items → IsDistinct (add_member items m)
unfolding add_member
add_member-IsDistinct items m d =
    fold-keeps IsDistinct (add_address m.endpoint_agent m.ports)
      (λ s ip h. add_address-IsDistinct m.endpoint_agent m.ports s ip h) items m.ips d

members-IsDistinct :
    (items : Items) (ms : List GroupMember)
    → IsDistinct items
    → IsDistinct (fold add_member items ms)
members-IsDistinct = fold-keeps IsDistinct add_member add_member-IsDistinct

lookup-to_blocks :
    (ip : String) (items : Items) → lookup ip items ≡ none → lookup ip (to_blocks items) ≡ none
unfolding lookup
lookup-to_blocks ip [] h = refl
lookup-to_blocks ip ((k, item) ∷ rest) h = ground (arith, h, lookup-to_blocks ip rest)

to_blocks-IsDistinct : (items : Items) → IsDistinct items → IsDistinct (to_blocks items)
to_blocks-IsDistinct [] d = tt
to_blocks-IsDistinct ((k, item) ∷ rest) d =
    (lookup-to_blocks k rest d.0, to_blocks-IsDistinct rest d.1)

known-IsDistinct :
    (endpoints : Endpoints) (items : Items) (m : GroupMember)
    → IsDistinct items
    → IsDistinct (add_known endpoints items m)
known-IsDistinct endpoints items m d = elim (Option-cases (lookup m.endpoint_reference endpoints)) [
  | inl unknown ↦
      let shape : items ≡ add_known endpoints items m = ground (arith, unknown) in
      subst (λ x. IsDistinct x) shape d
  | inr (old, there) ↦
      let shape : add_member items old ≡ add_known endpoints items m = ground (arith, there) in
      subst (λ x. IsDistinct x) shape (add_member-IsDistinct items old d)
]

-- NextPatch returns a patch whose maps hold an address once
to_group_patch-IsPatch :
    (name : String) (m : GroupMembership) (source : GroupMembersPatch)
    → IsPatch (rule_patch (to_group_patch name m source))
unfolding to_group_patch
to_group_patch-IsPatch name m source =
    let added = fold add_member [] source.added_group_members in
    let gone = fold (add_known m.endpoints) [] source.updated_group_members in
    record {
      add = to_blocks-IsDistinct (fold add_member added source.updated_group_members) (
          members-IsDistinct added source.updated_group_members
            (members-IsDistinct [] source.added_group_members tt));
      del = to_blocks-IsDistinct (fold add_member gone source.removed_group_members) (
          members-IsDistinct gone source.removed_group_members (
            fold-keeps IsDistinct (add_known m.endpoints) (known-IsDistinct m.endpoints) []
              source.updated_group_members tt));
    }

module _ (env : Env) (d : Datapath) (attempts : ℕ) where
  open d use {State}

  patch_rule-IsSafe :
      (patch : RulePatch) (rule : CompleteRule) (s : State)
      → IsPatch patch
      → IsSafe rule
      → (rule' : CompleteRule) × (s' : State) × (patch_rule env d attempts patch rule s
          ≡ some (rule', s'))
        × IsSafe rule'
  unfolding patch_rule
  patch_rule-IsSafe patch rule s p safe =
      let (rule', applied, safe', (rules, made)) = apply_patch-IsSafe env rule patch p safe in
      (
        rule',
        (sync_policy_rules_until_success d attempts rules.1 rules.0 s).0,
        ground (arith, applied, made),
        safe',
      )

  patch_rules-IsSafe :
      (patch : RulePatch) (rules : List CompleteRule) (s : State)
      → IsPatch patch
      → All IsSafe rules
      → (rules' : List CompleteRule) × (s' : State) × (patch_rules env d attempts patch rules s
          ≡ some (rules', s'))
        × All IsSafe rules'
  unfolding patch_rules
  patch_rules-IsSafe patch [] s p safe = ([], s, refl, tt)
  patch_rules-IsSafe patch (rule ∷ rest) s p safe =
      let (rule', t, first, good) = patch_rule-IsSafe patch rule s p safe.0 in
      let (rules', u, later, all) = patch_rules-IsSafe patch rest t p safe.1 in
      (rule' ∷ rules', u, ground (arith, first, later), (good, all))

  -- If the rules have no group at a side with a nil item, and NextPatch finds a patch of the group,
  -- then ReconcilePatch does not end the process: it uses up one patch of the group, the rules stay
  -- such rules, and it asks to come back exactly if patches are left.
  pub reconcile_patch-works :
      (name : String) (rules : List CompleteRule) (groups : GroupCache) (s : State)
      (patch : GroupPatch)
      → AllDistinct groups
      → All IsSafe rules
      → next_patch groups name ≡ some patch
      → (rules' : List CompleteRule) × (groups' : GroupCache) × (s' : State) × (reconcile_patch env
            d attempts name rules groups s
          ≡ ok (worked rules' groups' s' (not (patch_len groups' name == 0))))
        × All IsSafe rules'
        × AllDistinct groups'
        × (patch_len groups' name + 1 ≡ patch_len groups name)
  unfolding reconcile_patch
  reconcile_patch-works name rules groups s patch distinct safe found =
      let (m, source, known, stored, shape) = next_patch-cases groups name patch found in
      let is_patch : IsPatch (rule_patch patch) =
        subst (λ p. IsPatch (rule_patch p)) (sym shape) (to_group_patch-IsPatch name m source) in
      let (rules', s', ran, safe') = patch_rules-IsSafe (rule_patch patch) rules s is_patch safe in
      let (m2, source2, groups', known2, stored2, applied, after) =
        apply_patch-next_patch groups name patch (distinct name) found in
      (
        rules',
        groups',
        s',
        ground (arith, found, ran, applied),
        safe',
        apply_patch-AllDistinct groups groups' patch applied distinct,
        after.fewer,
      )

nothing_stored :
    (patches : Patches) (r : ℕ) (source : GroupMembersPatch)
    → length patches ≡ 0
    → lookup r patches ≢ some source
unfolding lookup
nothing_stored [] r source h e = absurd (ground (arith, e))
nothing_stored (p ∷ rest) r source h e = absurd (ground (arith, h))

no_patches :
    (groups : GroupCache) (name : String)
    → patch_len groups name ≡ 0
    → next_patch groups name ≡ none
unfolding patch_len
no_patches groups name h = elim (Option-cases (next_patch groups name)) [
  | inl absent ↦ absent
  | inr (patch, found) ↦
      let (m, source, known, stored, shape) = next_patch-cases groups name patch found in
      absurd (nothing_stored (patches_of groups name) m.revision source h stored)
]

module _ (env : Env) (d : Datapath) (attempts : ℕ) where
  open d use {State}

  idle_round :
      (name : String) (rules : List CompleteRule) (groups : GroupCache) (s : State)
      → next_patch groups name ≡ none
      → reconcile_patch env d attempts name rules groups s ≡ ok idle
  unfolding reconcile_patch
  idle_round name rules groups s h = ground (arith, h)

  -- From rules that have no group at a side with a nil item, one round more than a group has patches
  -- is enough to reach a state with no patch to apply, without ending the process: the patches that
  -- are left, if any, are not for the revision of the group. The rules stay such rules.
  pub rounds-drain :
      (fuel : ℕ) (name : String) (rules : List CompleteRule) (groups : GroupCache) (s : State)
      → AllDistinct groups
      → All IsSafe rules
      → patch_len groups name < fuel
      → (rules' : List CompleteRule) × (groups' : GroupCache) × (s' : State) × (rounds env d
            attempts fuel name rules groups s
          ≡ ok (rules', groups', s'))
        × (next_patch groups' name ≡ none)
        × All IsSafe rules'
  unfolding rounds
  rounds-drain zero name rules groups s distinct safe enough = absurd (ground arith)
  rounds-drain (suc fuel) name rules groups s distinct safe enough =
      elim (Option-cases (next_patch groups name)) [
        | inl absent ↦
            (rules, groups, s, ground (arith, idle_round name rules groups s absent), absent, safe)
        | inr (patch, found) ↦
            let (rules', groups', s', ran, safe', distinct', fewer) =
              reconcile_patch-works env d attempts name rules groups s patch distinct safe found in
            elim (Bool-cases (patch_len groups' name == 0)) [
              | inl done ↦ (
                rules',
                groups',
                s',
                ground (arith, ran, done),
                no_patches groups' name ((nat_eq.beq_iff (patch_len groups' name) 0).0 done),
                safe',
              )
              | inr left ↦
                  let (rules2, groups2, s2, later, gone, safe2) =
                    rounds-drain fuel name rules' groups' s' distinct' safe'
                      (ground (arith, fewer, enough)) in
                  (rules2, groups2, s2, ground (arith, ran, left, later), gone, safe2)
            ]
      ]
