-- ===== src/GroupController/Patches/Loop.antt =====
-- The loop of ApplyGroupMembersPatches ends, at the first revision that no patch is for.
use mathlib.Core.Path.{subst}
use everoute.Common.{
  ℕ, zero, suc, ◌+◌, ◌≤◌, ◌<◌, ◌≡◌, refl, Bool, true, false, ◌||◌, none, some, List, [], ◌∷◌, fold,
  any, length, leb, if◌then◌else◌, arith, nat_eq, ◌==◌, Option-cases, inl, inr, ◌^◌, Bool-cases,
}
use everoute.Common.Dict.{lookup, insert, is_some, lookup-insert, lookup-nil}
use everoute.Api.{GroupMembers, GroupMembersPatch}
use everoute.Cache.{next_revision}
use everoute.GroupController.Patches.{
  PatchSet, set_patch, to_patch_set, advance, apply_loop, apply_group_members_patches,
}

-- the patches for a revision or a later one
abbrev count_from : ℕ → PatchSet → ℕ
count_from r [] = 0
count_from r ((j, p) ∷ rest) = if leb r j then suc (count_from r rest) else count_from r rest

count_from_le : (r : ℕ) (s : PatchSet) → count_from (suc r) s ≤ count_from r s
count_from_le r [] = ground arith
count_from_le r ((j, p) ∷ rest) = ground (arith, count_from_le r rest)

count_from-lookup :
    (r : ℕ) (s : PatchSet) (patch : GroupMembersPatch)
    → lookup r s ≡ some patch
    → count_from (suc r) s < count_from r s
unfolding lookup
count_from-lookup r [] patch h = absurd (ground arith)
count_from-lookup r ((j, p) ∷ rest) patch h =
    ground (arith, h, count_from-lookup r rest patch, count_from_le r rest, nat_eq.beq_iff j r)

count_from-length : (r : ℕ) (s : PatchSet) → count_from r s ≤ length s
count_from-length r [] = ground arith
count_from-length r ((j, p) ∷ rest) = ground (arith, count_from-length r rest)

length-insert :
    (r : ℕ) (p : GroupMembersPatch) (s : PatchSet) → length (insert r p s) ≤ suc (length s)
unfolding insert
length-insert r p [] = ground arith
length-insert r p ((j, q) ∷ rest) = ground (arith, length-insert r p rest)

length-set_all :
    (s : PatchSet) (patches : List GroupMembersPatch)
    → length (fold set_patch s patches) ≤ length s + length patches
length-set_all s [] = ground arith
length-set_all s (p ∷ ps) = ground (
  arith,
  length-set_all (set_patch s p) ps,
  length-insert p.applied_to_group_members.revision p s,
)

-- whether a patch is for the revision
abbrev pub fits : ℕ → GroupMembersPatch → Bool
fits r patch = patch.applied_to_group_members.revision == r

set_all-fits :
    (r : ℕ) (s : PatchSet) (patches : List GroupMembersPatch)
    → is_some (lookup r (fold set_patch s patches)) ≡ (any (fits r) patches || is_some (lookup r s))
set_all-fits r s [] = ground arith
set_all-fits r s (p ∷ ps) = ground (
  arith,
  set_all-fits r (set_patch s p) ps,
  lookup-insert p.applied_to_group_members.revision r p s,
)

pub record Reaches (s : PatchSet) (first : ℕ) (last : ℕ) : Type 0 where
  pub stops : lookup last s ≡ none
  pub later : first ≤ last
  pub through : (r : ℕ) → first ≤ r → r < last → is_some (lookup r s) ≡ true

reach_more :
    (s : PatchSet) (first last : ℕ) (patch : GroupMembersPatch)
    → lookup first s ≡ some patch
    → Reaches s (suc first) last
    → Reaches s first last
reach_more s first last patch h reach = record {
  stops = reach.stops;
  later = ground (arith, reach.later);
  through = λ r low high. elim (Bool-cases (first == r)) [
    | inl same ↦ ground (arith, h, same, nat_eq.beq_iff first r)
    | inr other ↦ reach.through r (ground (arith, low, other, nat_eq.beq_iff first r)) high
  ];
}

advance-revision :
    (members : GroupMembers) (patch : GroupMembersPatch)
    → suc members.revision < 2 ^ 32
    → (advance members patch).revision ≡ suc members.revision
unfolding advance next_revision
advance-revision members patch h = ground (arith, h)

apply_loop-Reaches :
    (fuel : ℕ) (s : PatchSet) (members : GroupMembers)
    → count_from members.revision s < fuel
    → members.revision + fuel < 2 ^ 32
    → (result : GroupMembers) × (apply_loop fuel s members ≡ some result)
      × Reaches s members.revision result.revision
      × (result.revision ≡ members.revision → result ≡ members)
      × (result.revision < members.revision + fuel)
unfolding apply_loop
apply_loop-Reaches zero s members few fit = absurd (ground arith)
apply_loop-Reaches (suc fuel) s members few fit = elim (Option-cases (lookup members.revision s)) [
  | inl stop ↦ (
    members,
    ground (arith, stop),
    record { stops = stop; later = ground arith; through = λ r low high. absurd (ground arith) },
    λ same. refl,
    ground arith,
  )
  | inr (patch, found) ↦
      let new = advance members patch in
      let next : new.revision ≡ suc members.revision =
        advance-revision members patch (ground arith) in
      let fewer = count_from-lookup members.revision s patch found in
      let (result, runs, reach, still, bound) =
        apply_loop-Reaches fuel s new (rw next (ground (arith, fewer, few)))
          (rw next (ground (arith, fit))) in
      (
        result,
        ground (arith, found, runs),
        reach_more s members.revision result.revision patch found
            (subst (λ r. Reaches s r result.revision) next reach),
        λ same. absurd (ground (arith, same, reach.later, next)),
        ground (arith, bound, next),
      )
]

-- Unless the revisions overflow, ApplyGroupMembersPatches ends: at a later or the same revision
-- that no patch is for, at most as many revisions later as there are patches. There is a patch for
-- each revision passed, and members whose revision stays are unchanged.
pub apply_group_members_patches-ends :
    (members : GroupMembers) (patches : List GroupMembersPatch)
    → members.revision + length patches + 1 < 2 ^ 32
    → (result : GroupMembers) × (apply_group_members_patches members patches ≡ some result)
      × (any (fits result.revision) patches ≡ false)
      × (members.revision ≤ result.revision)
      × ((r : ℕ) → members.revision ≤ r → r < result.revision → any (fits r) patches ≡ true)
      × (result.revision ≡ members.revision → result ≡ members)
      × (result.revision ≤ members.revision + length patches)
unfolding apply_group_members_patches
apply_group_members_patches-ends members patches fit =
    let s = to_patch_set patches in
    let size = length-set_all [] patches in
    let (result, runs, reach, still, bound) =
      apply_loop-Reaches (suc (length patches)) s members
        (ground (arith, size, count_from-length members.revision s)) (ground (arith, fit)) in
    (
      result,
      runs,
      ground (arith, reach.stops, set_all-fits result.revision [] patches),
      reach.later,
      λ r low high. ground (
        arith,
        reach.through r low high,
        set_all-fits r [] patches,
        lookup-nil {V = GroupMembersPatch} r,
      ),
      still,
      ground (arith, bound),
    )
