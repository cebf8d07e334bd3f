-- ===== src/GroupController/Reconcile/Round.antt =====
-- A round of the update of a group, on a server that carries out the writes.
use everoute.Common.{
  ℕ, ◌≡◌, refl, sym, ◌∙◌, String, Bool, true, false, Option, none, some, List, [], ◌∷◌, any,
  if◌then◌else◌, Result, ok, err, arith, Bool-cases, inl, inr,
}
use mathlib.Core.Path.{subst}
use everoute.Api.{GroupMembers, GroupMembersPatch, reference_eq}
use everoute.Cache.{revision_lt}
use everoute.GroupController.Patches.{to_group_members_patch, is_empty_patch}
use everoute.GroupController.Patches.Loop.{fits}
use everoute.GroupController.Select.{not_found, ReadError}
use everoute.GroupController.Reconcile.{
  Server, Written, checked, then_write, empty_members, next_members, next_patch,
  sync_group_members_patch, raise_members, sync_group_members, delete_old, is_retained,
  cleanup_old_patches, write_round, patch_name, cleanup_listed, sync_found,
}

-- a missing object is reported as such
abbrev pub found_or_not : Option GroupMembers → Result ReadError GroupMembers
found_or_not none = err not_found
found_or_not (some m) = ok m

-- For one group: reads return what is stored, writes of members succeed and store them, writes of
-- patches leave the members alone, and a patch is created if there is none for its revision.
pub record IsReliable (server : Server) (name : String)
    (members : server.State → Option GroupMembers) (patches : server.State → List GroupMembersPatch)
    : Type 0 where
  pub get : (s : server.State) → server.get_members s name ≡ found_or_not (members s)
  pub list : (s : server.State) → server.list_patches s name ≡ ok (patches s)
  pub create :
      (m : GroupMembers) (s : server.State)
      → m.name ≡ name
      → members s ≡ none
      → ((server.create_members m s).1 ≡ true) × (members (server.create_members m s).0 ≡ some m)
  pub update :
      (m old : GroupMembers) (s : server.State)
      → members s ≡ some old
      → ((server.update_members
            (record old { revision = m.revision; group_members = m.group_members })
            s).1
          ≡ true)
        × (members
              (server.update_members
                (record old { revision = m.revision; group_members = m.group_members })
                s).0
            ≡ some (record old { revision = m.revision; group_members = m.group_members }))
  pub create_patch :
      (patch : GroupMembersPatch) (s : server.State)
      → any (fits patch.applied_to_group_members.revision) (patches s) ≡ false
      → ((server.create_patch name patch s).1 ≡ true)
        × (members (server.create_patch name patch s).0 ≡ members s)
  pub delete_patch :
      (patch : String) (s : server.State)
      → ((server.delete_patch name patch s).1 ≡ true)
        × (members (server.delete_patch name patch s).0 ≡ members s)

-- what is stored, or the members that a missing object stands for
abbrev pub or_empty_members : String → Option GroupMembers → GroupMembers
or_empty_members name none = empty_members name
or_empty_members name (some m) = m

-- what sync_group_members stores
unfoldable pub raised : GroupMembers → GroupMembers → GroupMembers
raised old new =
    if revision_lt old.revision new.revision
    then record old { revision = new.revision; group_members = new.group_members }
    else old

module _ (server : Server) (name : String) (members : server.State → Option GroupMembers)
    (patches : server.State → List GroupMembersPatch)
    (reliable : IsReliable server name members patches) where
  -- the writes succeed and leave the members
  abbrev Keeps : server.State → Written server → Type 0
  Keeps s w = (w.1 ≡ none) × (members w.0 ≡ members s)

  checked-Keeps :
      (s : server.State) (r : server.State × Bool)
      → r.1 ≡ true
      → members r.0 ≡ members s
      → Keeps s (checked server r)
  checked-Keeps s (t, true) h k = (refl, k)
  checked-Keeps s (t, false) h k = absurd (ground (arith, h))

  then_write-Keeps :
      (s : server.State) (w : Written server) (next : server.State → Written server)
      → Keeps s w
      → ((t : server.State) → Keeps t (next t))
      → Keeps s (then_write server w next)
  then_write-Keeps s (t, none) next h k = ((k t).0, (k t).1 ∙ h.1)
  then_write-Keeps s (t, some e) next h k = absurd (ground (arith, h.0))

  delete_old-Keeps :
      (revision : ℕ) (old : List GroupMembersPatch) (s : server.State)
      → Keeps s (delete_old server name revision old s)
  unfolding delete_old
  delete_old-Keeps revision [] s = (refl, refl)
  delete_old-Keeps revision (patch ∷ rest) s = elim (Bool-cases (is_retained revision patch)) [
    | inl kept ↦ rw kept (delete_old-Keeps revision rest s)
    | inr old ↦ rw old (
        then_write-Keeps s (checked server (server.delete_patch name patch.name s))
          (delete_old server name revision rest)
          (checked-Keeps s (server.delete_patch name patch.name s)
            (reliable.delete_patch patch.name s).0 (reliable.delete_patch patch.name s).1)
          (delete_old-Keeps revision rest))
  ]

  cleanup-Keeps :
      (revision : ℕ) (s : server.State) → Keeps s (cleanup_old_patches server name revision s)
  unfolding cleanup_old_patches
  cleanup-Keeps revision s =
      subst (λ r. Keeps s (cleanup_listed server name revision s r)) (sym (reliable.list s))
        (delete_old-Keeps revision (patches s) s)

  -- the writes succeed, and the members are these
  abbrev Stores : GroupMembers → Written server → Type 0
  Stores m w = (w.1 ≡ none) × (members w.0 ≡ some m)

  checked-Stores :
      (m : GroupMembers) (r : server.State × Bool)
      → r.1 ≡ true
      → members r.0 ≡ some m
      → Stores m (checked server r)
  checked-Stores m (t, true) h k = (refl, k)
  checked-Stores m (t, false) h k = absurd (ground (arith, h))

  then_write-Stores :
      (m old : GroupMembers) (w : Written server) (next : server.State → Written server)
      → Stores old w
      → ((t : server.State) → members t ≡ some old → Stores m (next t))
      → Stores m (then_write server w next)
  then_write-Stores m old (t, none) next h k = k t h.1
  then_write-Stores m old (t, some e) next h k = absurd (ground (arith, h.0))

  raise_members-Stores :
      (old new : GroupMembers) (s : server.State)
      → members s ≡ some old
      → Stores (raised old new) (raise_members server old new s)
  unfolding raise_members raised
  raise_members-Stores old new s h = elim (Bool-cases (revision_lt old.revision new.revision)) [
    | inl less ↦
        let m = record old { revision = new.revision; group_members = new.group_members } in
        rw less (
          checked-Stores m (server.update_members m s) (reliable.update new old s h).0
            (reliable.update new old s h).1)
    | inr enough ↦ rw enough (refl, h)
  ]

  sync_found-Stores :
      (o : Option GroupMembers) (new : GroupMembers) (s : server.State)
      → members s ≡ o
      → Stores
          (raised (or_empty_members name o) new)
          (sync_found server name new s (found_or_not o))
  unfolding sync_found
  sync_found-Stores (some old) new s h = raise_members-Stores old new s h
  sync_found-Stores none new s h =
      let m = empty_members name in
      let made = reliable.create m s refl h in
      then_write-Stores (raised m new) m (checked server (server.create_members m s))
        (raise_members server m new) (checked-Stores m (server.create_members m s) made.0 made.1)
        (λ t stored. raise_members-Stores m new t stored)

  sync_group_members-Stores :
      (new : GroupMembers) (s : server.State)
      → Stores
          (raised (or_empty_members name (members s)) new)
          (sync_group_members server name new s)
  unfolding sync_group_members
  sync_group_members-Stores new s =
      subst
        (λ r.
          Stores (raised (or_empty_members name (members s)) new) (sync_found server name new s r))
        (sym (reliable.get s)) (sync_found-Stores (members s) new s refl)

  sync_patch-Keeps :
      (patch : GroupMembersPatch) (s : server.State)
      → (is_empty_patch patch ≡ false
          → any (fits patch.applied_to_group_members.revision) (patches s) ≡ false)
      → Keeps s (sync_group_members_patch server name patch s)
  unfolding sync_group_members_patch
  sync_patch-Keeps patch s free = elim (Bool-cases (is_empty_patch patch)) [
    | inl empty ↦ rw empty (refl, refl)
    | inr full ↦
        let named = record patch {
          name = patch_name name patch.applied_to_group_members.revision;
        } in
        let made = reliable.create_patch named s (free full) in
        rw full (checked-Keeps s (server.create_patch name named s) made.0 made.1)
  ]

  next_patch-revision :
      (prev curr : GroupMembers)
      → is_empty_patch (next_patch name prev curr) ≡ false
      → (next_patch name prev curr).applied_to_group_members.revision ≡ prev.revision
  unfolding next_patch
  next_patch-revision prev curr full =
      elim (Bool-cases (is_empty_patch (to_group_members_patch (some prev) (some curr)))) [
        | inl empty ↦ absurd (ground (arith, empty, full))
        | inr more ↦ rw more refl
      ]

  later_writes :
      (prev curr : GroupMembers) (s : server.State) (w : Written server)
      → Keeps s w
      → Stores (raised (or_empty_members name (members s)) (next_members name prev curr)) (
          then_write server w (λ s1.
            then_write server
              (sync_group_members server name (next_members name prev curr) s1)
              (cleanup_old_patches server name (next_members name prev curr).revision)))
  later_writes prev curr s (t, some e) h = absurd (ground (arith, h.0))
  later_writes prev curr s (t, none) h =
      let new = next_members name prev curr in
      let m = raised (or_empty_members name (members t)) new in
      subst
        (λ o. Stores (raised (or_empty_members name o) new) (
          then_write server (sync_group_members server name new t)
            (cleanup_old_patches server name new.revision)))
        h.1
        (then_write-Stores m m (sync_group_members server name new t)
          (cleanup_old_patches server name new.revision) (sync_group_members-Stores new t)
          (λ u stored.
            ((cleanup-Keeps new.revision u).0, (cleanup-Keeps new.revision u).1 ∙ stored)))

  pub write_round-Stores :
      (prev curr : GroupMembers) (s : server.State)
      → any (fits prev.revision) (patches s) ≡ false
      → Stores
          (raised (or_empty_members name (members s)) (next_members name prev curr))
          (write_round server name prev curr s)
  unfolding write_round
  write_round-Stores prev curr s free =
      later_writes prev curr s (sync_group_members_patch server name (next_patch name prev curr) s)
        (sync_patch-Keeps (next_patch name prev curr) s (λ full.
          subst (λ r. any (fits r) (patches s) ≡ false) (sym (next_patch-revision prev curr full))
            free))
