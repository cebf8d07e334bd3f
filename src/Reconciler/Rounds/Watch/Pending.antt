-- ===== src/Reconciler/Rounds/Watch/Pending.antt =====
-- A group with a patch to apply is in the queue.
use mathlib.Core.Path.{subst}
use everoute.Common.{
  ℕ, ◌≡◌, refl, sym, ap, ◌∙◌, String, true, false, not, Option, none, some, List, ◌==◌, nat_eq,
  string_eq, Result, ok, err, arith, Bool-cases, inl, inr,
}
use everoute.Common.Dict.{lookup, is_some}
use everoute.Common.Set.{has, add, remove, has-add, has-remove}
use everoute.Cache.Group.{
  GroupCache, GroupPatch, next_patch, add_patch, apply_patch, patch_len, add_group_membership,
  new_group_cache, Fatal,
}
use everoute.Cache.Rule.{CompleteRule, Env}
use everoute.Reconciler.Sync.{Datapath}
use everoute.Reconciler.Rounds.{
  Round, idle, worked, Crash, rule_patch, patch_rules, reconcile_patch, apply_round, finish_round,
}
use everoute.Reconciler.Rounds.Watch.{
  Watched, patch_created, members_created, members_deleted, after_round, Event, creates_patch,
  creates_members, deletes_members, reconciles, Reached, initially, after,
}
use everoute.Reconciler.Rounds.Watch.Elsewhere.{
  has_next, Elsewhere, next_patch-name, add_patch-Elsewhere, add_group_membership-Elsewhere,
  del_group_membership-has_next, apply_patch-Elsewhere, has_next-patch_len,
}

-- What a round is, by the patch that NextPatch returned
abbrev IsRound : {S : Type 0} → GroupCache → String → Result Crash (Round S) → Type 0
IsRound c name (err crash) = Unit
IsRound c name (ok idle) = next_patch c name ≡ none
IsRound c name (ok (worked rules c' s again)) =
    (p : GroupPatch) × (p.group_name ≡ name)
    × (apply_patch c p ≡ ok c')
    × (again ≡ not (patch_len c' name == 0))

module _ (env : Env) (d : Datapath) (attempts : ℕ) where
  open d use {State}

  finish_round-IsRound :
      (c : GroupCache) (name : String) (p : GroupPatch) (rules : List CompleteRule) (s : State)
      (applied : Result Fatal GroupCache)
      → p.group_name ≡ name
      → apply_patch c p ≡ applied
      → IsRound c name (finish_round env d attempts name rules s applied)
  finish_round-IsRound c name p rules s (err e) is h = tt
  finish_round-IsRound c name p rules s (ok c') is h = (p, is, h, refl)

  apply_round-IsRound :
      (c : GroupCache) (name : String) (p : GroupPatch)
      (patched : Option (List CompleteRule × State))
      → p.group_name ≡ name
      → IsRound c name (apply_round env d attempts name c p patched)
  apply_round-IsRound c name p none is = tt
  apply_round-IsRound c name p (some (rules, s)) is =
      finish_round-IsRound c name p rules s (apply_patch c p) is refl

  reconcile_patch-IsRound :
      (name : String) (rules : List CompleteRule) (c : GroupCache) (s : State)
      → IsRound c name (reconcile_patch env d attempts name rules c s)
  unfolding reconcile_patch
  reconcile_patch-IsRound name rules c s = go (next_patch c name) refl
    where
      go :
          (next : Option GroupPatch)
          → next_patch c name ≡ next
          → IsRound c name (elim next [
            | none ↦ ok idle
            | some p ↦
                apply_round env d attempts name c p
                  (patch_rules env d attempts (rule_patch p) rules s)
          ])
      go none h = h
      go (some p) h = apply_round-IsRound c name p _ (next_patch-name c name p h)

-- Every group with a patch to apply is in the queue.
abbrev pub Queued : Watched → Type 0
Queued w = (g : String) → has_next w.groups g ≡ true → has g w.queue ≡ true

after_round-Queued :
    {S : Type 0} (name : String) (round : Round S) (w : Watched)
    → IsRound w.groups name (ok round)
    → Queued w
    → Queued (after_round name round w)
unfolding after_round
after_round-Queued name idle w h queued g next =
    let none_here : has_next w.groups name ≡ false = ap is_some h in
    ground (arith, queued g, next, has-remove name g w.queue, string_eq.beq_iff name g, none_here)
after_round-Queued name (worked rules c' s again) w (p, is, applied, back) queued g next =
    elim (Bool-cases (name == g)) [
      | inl here ↦
          let same : name ≡ g = (string_eq.beq_iff name g).0 here in
          let more : again ≡ true = back ∙ ap not (has_next-patch_len c' name (rw same next)) in
          rw more (ground (arith, has-add name g (remove name w.queue), here))
      | inr other ↦
          let before : has_next w.groups g ≡ true =
            sym (apply_patch-Elsewhere w.groups c' p applied g (rw is other)) ∙ next in
          elim (Bool-cases again) [
            | inl more ↦ rw more (
                ground (
                  arith,
                  has-add name g (remove name w.queue),
                  has-remove name g w.queue,
                  queued g before,
                  other,
                ))
            | inr done ↦ rw done (ground (arith, has-remove name g w.queue, queued g before, other))
          ]
    ]

enqueued :
    (c c' : GroupCache) (name : String) (queue : List String)
    → Elsewhere c c' name
    → Queued (record { groups = c; queue = queue })
    → Queued (record { groups = c'; queue = add name queue })
enqueued c c' name queue elsewhere queued g next =
    ground (arith, has-add name g queue, elsewhere g, queued g, next)

Event-Queued :
    {env : Env} {d : Datapath} {attempts : ℕ} {w w' : Watched}
    → Event env d attempts w w'
    → Queued w
    → Queued w'
unfolding patch_created members_created members_deleted
Event-Queued (creates_patch none w) queued = queued
Event-Queued (creates_patch (some p) w) queued =
    enqueued w.groups (add_patch w.groups p) p.applied_to_group_members.name w.queue
      (add_patch-Elsewhere w.groups p) queued
Event-Queued (creates_members m w) queued =
    enqueued w.groups (add_group_membership w.groups m) m.name w.queue
      (add_group_membership-Elsewhere w.groups m) queued
Event-Queued (deletes_members name w) queued =
    λ g next. ground (arith, del_group_membership-has_next w.groups name g, queued g, next)
Event-Queued {env} {d} {attempts} (reconciles name rules s round w h) queued =
    after_round-Queued name round w
      (subst (IsRound w.groups name) h
        (reconcile_patch-IsRound env d attempts name rules w.groups s))
      queued

empty-has_next : (g : String) → has_next new_group_cache g ≡ false
unfolding new_group_cache next_patch lookup
empty-has_next g = refl

-- However patches and groups arrive and are deleted and ReconcilePatch runs in between, for any
-- name, with any rules and any datapath, a group for which NextPatch returns a patch is in the queue:
-- no patch that can be applied waits for another event.
pub Reached-Queued :
    (env : Env) (d : Datapath) (attempts : ℕ) (w : Watched)
    → Reached env d attempts w
    → (g : String) → is_some (next_patch w.groups g) ≡ true
    → has g w.queue ≡ true
Reached-Queued env d attempts w reached = all reached
  where
    all : {w : Watched} → Reached env d attempts w → Queued w
    all initially = λ g next. absurd (ground (arith, next, empty-has_next g))
    all (after before event) = Event-Queued event (all before)
