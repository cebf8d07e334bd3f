-- ===== src/Cache/Group/Steps.antt =====
-- The group cache as a state machine: the events of the agent in any order.
use everoute.Common.{
  ◌<◌, ◌≡◌, ◌≢◌, ap, String, Bool, true, false, none, some, [], ◌==◌, nat_eq, string_eq,
  if◌then◌else◌, ok, err, arith, inl, inr, Option-cases, Bool-cases,
}
use everoute.Common.Dict.{
  Dict, lookup, insert, delete, delete_if, IsDistinct, lookup-insert, lookup-delete,
  insert-IsDistinct, delete-IsDistinct, delete_if-IsDistinct,
}
use everoute.Api.{GroupMembers, GroupMembersPatch}
use everoute.Cache.{i32_mod, revision_lt}
use everoute.Cache.Group.{
  GroupCache, GroupPatch, GroupMembership, Patches, unexpected_revision, or_empty, new_group_cache,
  patches_of, add_patch, is_old, next_patch, to_group_patch, apply_patch, after_patch, patched,
  add_group_membership, membership_of, del_group_membership,
}
use everoute.Cache.Group.Current.{
  IsCurrent, new_group_cache-IsCurrent, add_patch-IsCurrent, add_group_membership-IsCurrent,
  del_group_membership-IsCurrent, apply_patch-IsCurrent, apply_patch-cases,
}
use everoute.Cache.Group.Progress.{Applied, next_patch-cases, apply_patch-next_patch}

-- An event: a patch, a group, or the deletion of a group arrives, or the reconciler applies a patch,
-- which NextPatch may have returned in an earlier state.
pub data Step : GroupCache → GroupCache → Type 0 where
  adds_patch :
      (c : GroupCache) (p : GroupMembersPatch)
      → p.applied_to_group_members.revision < i32_mod
      → Step c (add_patch c p)
  adds_group : (c : GroupCache) (g : GroupMembers) → Step c (add_group_membership c g)
  deletes_group : (c : GroupCache) (name : String) → Step c (del_group_membership c name)
  applies_patch :
      (c c' : GroupCache) (p : GroupPatch)
      → p.revision ≢ 2147483647
      → apply_patch c p ≡ ok c'
      → Step c c'

pub data Reachable : GroupCache → Type 0 where
  initial : Reachable new_group_cache
  after : {c c' : GroupCache} → Reachable c → Step c c' → Reachable c'

-- the patches of every group stand under different revisions
abbrev pub AllDistinct : GroupCache → Type 0
AllDistinct c = (g : String) → IsDistinct (patches_of c g)

patches-insert :
    (g k : String) (ps : Patches) (patches : Dict String Patches)
    → or_empty (lookup k (insert g ps patches))
      ≡ (if g == k then ps else or_empty (lookup k patches))
patches-insert g k ps patches = ground (arith, lookup-insert g k ps patches)

patches-delete :
    (g k : String) (patches : Dict String Patches)
    → or_empty (lookup k (delete g patches)) ≡ (if g == k then [] else or_empty (lookup k patches))
patches-delete g k patches = ground (arith, lookup-delete g k patches)

choose-IsDistinct :
    (b : Bool) (x y : Patches) → IsDistinct x → IsDistinct y → IsDistinct (if b then x else y)
choose-IsDistinct true x y h k = h
choose-IsDistinct false x y h k = k

put-AllDistinct :
    (c : GroupCache) (g : String) (ps : Patches) (members : Dict String GroupMembership)
    → AllDistinct c
    → IsDistinct ps
    → AllDistinct (record { patches = insert g ps c.patches; members = members })
unfolding patches_of
put-AllDistinct c g ps members h k name =
    rw (patches-insert g name ps c.patches) (choose-IsDistinct (g == name) ps _ k (h name))

pub apply_patch-AllDistinct :
    (c c' : GroupCache) (p : GroupPatch) → apply_patch c p ≡ ok c' → AllDistinct c → AllDistinct c'
unfolding after_patch patches_of
apply_patch-AllDistinct c c' p applied h = elim (apply_patch-cases c c' p applied) [
  | inl same ↦ rw same h
  | inr (m, source, known, revision, stored, done) ↦ rw done (
      put-AllDistinct c p.group_name (delete m.revision (patches_of c p.group_name))
        (insert p.group_name (patched m m.revision source) c.members) h
        (delete-IsDistinct m.revision (patches_of c p.group_name) (h p.group_name)))
]

Step-AllDistinct : {c c' : GroupCache} → Step c c' → AllDistinct c → AllDistinct c'
unfolding add_patch add_group_membership del_group_membership patches_of after_patch
Step-AllDistinct (adds_patch c p small) h =
    let name = p.applied_to_group_members.name in
    let revision = p.applied_to_group_members.revision in
    elim (Bool-cases (is_old revision (lookup name c.members))) [
      | inl old ↦ rw old h
      | inr recent ↦ rw recent (
          put-AllDistinct c name (insert revision p (patches_of c name)) c.members h
            (insert-IsDistinct revision p (patches_of c name) (h name)))
    ]
Step-AllDistinct (adds_group c g) h =
    let kept = delete_if (λ r. revision_lt r g.revision) (patches_of c g.name) in
    let added = insert g.name (membership_of g) c.members in
    elim (Option-cases (lookup g.name c.members)) [
      | inr (m, known) ↦
          let same : add_group_membership c g ≡ c = ground (arith, known) in rw same h
      | inl unknown ↦
          let shape : add_group_membership c g
              ≡ record { patches = insert g.name kept c.patches; members = added } =
            ground (arith, unknown) in
          rw shape (
            put-AllDistinct c g.name kept added h (
              delete_if-IsDistinct (λ r. revision_lt r g.revision) (patches_of c g.name)
                (h g.name)))
    ]
Step-AllDistinct (deletes_group c g) h =
    λ name. rw (patches-delete g name c.patches) (choose-IsDistinct (g == name) [] _ tt (h name))
Step-AllDistinct (applies_patch c c' p top applied) h = apply_patch-AllDistinct c c' p applied h

Step-IsCurrent : {c c' : GroupCache} → Step c c' → IsCurrent c → IsCurrent c'
Step-IsCurrent (adds_patch c p small) h = add_patch-IsCurrent c p small h
Step-IsCurrent (adds_group c g) h = add_group_membership-IsCurrent c g h
Step-IsCurrent (deletes_group c name) h = del_group_membership-IsCurrent c name h
Step-IsCurrent (applies_patch c c' p top applied) h = apply_patch-IsCurrent c c' p applied top h

new_group_cache-AllDistinct : AllDistinct new_group_cache
unfolding new_group_cache patches_of lookup
new_group_cache-AllDistinct g = tt

-- In every cache that the events lead to, no patch of a known group is older than the group, and
-- the patches of a group stand under different revisions. The events are those of the watches, and
-- ApplyPatch of any patch that does not end the process and is not at the greatest int32.
pub Reachable-IsCurrent : {c : GroupCache} → Reachable c → IsCurrent c × AllDistinct c
Reachable-IsCurrent initial = (new_group_cache-IsCurrent, new_group_cache-AllDistinct)
Reachable-IsCurrent (after r s) =
    let (current, apart) = Reachable-IsCurrent r in
    (Step-IsCurrent s current, Step-AllDistinct s apart)

-- In every reachable cache, a patch that NextPatch returns is accepted by ApplyPatch if no event
-- comes between: the group moves to the next revision and has one patch less.
pub apply_patch-Reachable :
    (cache : GroupCache) (name : String) (patch : GroupPatch)
    → Reachable cache
    → next_patch cache name ≡ some patch
    → (m : GroupMembership) × (source : GroupMembersPatch) × (cache' : GroupCache) × (lookup name
          cache.members
        ≡ some m)
      × (lookup m.revision (patches_of cache name) ≡ some source)
      × (apply_patch cache patch ≡ ok cache')
      × Applied cache cache' name m source
apply_patch-Reachable cache name patch r h =
    apply_patch-next_patch cache name patch ((Reachable-IsCurrent r).1 name) h

-- If, after NextPatch has returned a patch, the group is deleted and comes again at another
-- revision, ApplyPatch of the patch ends the process.
pub apply_patch-recreated :
    (cache : GroupCache) (name : String) (patch : GroupPatch) (members : GroupMembers)
    → next_patch cache name ≡ some patch
    → members.name ≡ name
    → patch.revision ≢ members.revision
    → apply_patch (add_group_membership (del_group_membership cache name) members) patch
      ≡ err (unexpected_revision patch.revision members.revision)
unfolding apply_patch add_group_membership del_group_membership to_group_patch
apply_patch-recreated cache name patch members h same differ =
    let (m, source, known, stored, shape) = next_patch-cases cache name patch h in
    let group : patch.group_name ≡ name = ap (λ (p : GroupPatch). p.group_name) shape in
    let absent : lookup members.name (delete name cache.members) ≡ none = ground (
      arith,
      lookup-delete name members.name cache.members,
      same,
      string_eq.beq_iff name members.name,
    ) in
    ground (
      arith,
      absent,
      group,
      same,
      lookup-insert members.name patch.group_name (membership_of members)
          (delete name cache.members),
      string_eq.beq_iff members.name patch.group_name,
      nat_eq.beq_iff patch.revision members.revision,
      differ,
    )
