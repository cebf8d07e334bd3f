-- ===== src/GroupController/Reconcile/Converges.antt =====
-- After a round, the stored members of a group are its current ones.
use everoute.Common.{
  ℕ, ◌+◌, ◌<◌, ◌≤◌, ◌^◌, ◌≡◌, refl, sym, ap, ◌∙◌, true, false, Option, none, some, List, length, ok,
  arith, Bool-cases, inl, inr, ltb, String,
}
use mathlib.Core.Path.{subst}
use everoute.Common.Dict.{lookup}
use everoute.Api.{EndpointReference, EndpointGroup, GroupMembers, GroupMembersPatch, reference_eq}
use everoute.Cache.{next_revision, revision_lt}
use everoute.GroupController.Patches.{
  to_group_members_patch, is_empty_patch, apply_group_members_patches, to_members,
}
use everoute.GroupController.Patches.Loop.{apply_group_members_patches-ends}
use everoute.GroupController.Patches.Empty.{is_empty_patch-SameMember}
use everoute.GroupController.Patches.RoundTrip.{SameMember}
use everoute.GroupController.Select.{fetch_curr_group_members}
use everoute.GroupController.Reconcile.{
  Server, next_members, moved_on, prev_of, fetch_prev_group_members, write_round,
  process_endpoint_group_update,
}
use everoute.GroupController.Reconcile.Round.{
  IsReliable, found_or_not, or_empty_members, raised, write_round-Stores,
}

revision_lt-small : (a b : ℕ) → a < 2 ^ 31 → b < 2 ^ 31 → revision_lt a b ≡ ltb a b
unfolding revision_lt
revision_lt-small a b h k = ground (arith, h, k)

-- the same members
abbrev pub Agrees : GroupMembers → GroupMembers → Type 0
Agrees m curr =
    (k : EndpointReference)
    → SameMember (lookup k (to_members m.group_members)) (lookup k (to_members curr.group_members))

Agrees-refl : (m curr : GroupMembers) → m.group_members ≡ curr.group_members → Agrees m curr
Agrees-refl m curr same k =
    rw same (record { present = refl; ips = λ ip. refl; agents = λ agent. refl })

prev_of-moved :
    (o : Option GroupMembers) (patches : List GroupMembersPatch)
    → (server : Server)
    → prev_of server (found_or_not o) (ok patches)
      ≡ moved_on server (or_empty_members "" o) (ok patches)
unfolding prev_of
prev_of-moved none patches server = refl
prev_of-moved (some m) patches server = refl

-- the first step of the round: the previous members
fetch_prev-moved :
    (server : Server) (name : String) (members : server.State → Option GroupMembers)
    (patches : server.State → List GroupMembersPatch) (prev : GroupMembers) (s : server.State)
    → IsReliable server name members patches
    → apply_group_members_patches (or_empty_members "" (members s)) (patches s) ≡ some prev
    → fetch_prev_group_members server name s ≡ ok prev
unfolding fetch_prev_group_members moved_on
fetch_prev-moved server name members patches prev s reliable runs =
    ap (λ r. prev_of server r (server.list_patches s name)) (reliable.get s)
    ∙ ap (prev_of server (found_or_not (members s))) (reliable.list s)
    ∙ prev_of-moved (members s) (patches s) server
    ∙ ground (arith, runs)

or_empty-members :
    (a b : String) (o : Option GroupMembers)
    → ((or_empty_members a o).revision ≡ (or_empty_members b o).revision)
      × ((or_empty_members a o).group_members ≡ (or_empty_members b o).group_members)
or_empty-members a b none = (refl, refl)
or_empty-members a b (some m) = (refl, refl)

next_revision-small : (r : ℕ) → r + 1 < 2 ^ 31 → next_revision r ≡ r + 1
unfolding next_revision
next_revision-small r h = ground (arith, h)

Agrees-same :
    (a b curr : GroupMembers) → a.group_members ≡ b.group_members → Agrees a curr → Agrees b curr
Agrees-same a b curr same h k =
    subst (λ ms. SameMember (lookup k (to_members ms)) (lookup k (to_members curr.group_members)))
      same (h k)

empty-Agrees :
    (prev curr : GroupMembers)
    → is_empty_patch (to_group_members_patch (some prev) (some curr)) ≡ true
    → Agrees prev curr
empty-Agrees prev curr empty k = (is_empty_patch-SameMember prev curr empty).1 k

-- what is stored agrees with the current members, by whether the patch is empty and the stored
-- members are behind
raised-Agrees :
    (name : String) (base old prev curr : GroupMembers)
    → old.revision ≡ base.revision
    → old.group_members ≡ base.group_members
    → base.revision ≤ prev.revision
    → prev.revision + 1 < 2 ^ 31
    → (prev.revision ≡ base.revision → prev ≡ base)
    → Agrees (raised old (next_members name prev curr)) curr
      × (old.revision ≤ (raised old (next_members name prev curr)).revision)
unfolding raised next_members
raised-Agrees name base old prev curr rev mem later small still =
    let new = next_members name prev curr in
    elim (Bool-cases (is_empty_patch (to_group_members_patch (some prev) (some curr)))) [
      | inr full ↦
          let step = next_revision-small prev.revision small in
          let behind : revision_lt old.revision (next_revision prev.revision) ≡ true =
            revision_lt-small old.revision (next_revision prev.revision)
              (ground (arith, rev, later, small)) (ground (arith, step, small))
            ∙ ground (arith, step, rev, later) in
          rw (full, behind)
            (
              Agrees-refl
                  (record old {
                    revision = next_revision prev.revision;
                    group_members = curr.group_members;
                  })
                  curr refl,
              ground (arith, step, rev, later),
            )
      | inl empty ↦ elim (Bool-cases (ltb old.revision prev.revision)) [
        | inl behind ↦
            let less : revision_lt old.revision prev.revision ≡ true =
              revision_lt-small old.revision prev.revision (ground (arith, rev, later, small))
                (ground (arith, rev, later, small))
              ∙ behind in
            rw (empty, less)
              (
                Agrees-refl
                    (record old { revision = prev.revision; group_members = curr.group_members })
                    curr refl,
                ground (arith, rev, later),
              )
        | inr level ↦
            let less : revision_lt old.revision prev.revision ≡ false =
              revision_lt-small old.revision prev.revision (ground (arith, rev, later, small))
                (ground (arith, rev, later, small))
              ∙ level in
            rw (empty, less)
              (
                Agrees-same prev old curr
                    (ap (λ m. m.group_members) (still (ground (arith, rev, later, level)))
                      ∙ sym mem)
                    (empty-Agrees prev curr empty),
                ground arith,
              )
      ]
    ]

updated :
    (server : Server) (group : EndpointGroup) (s : server.State) (prev curr : GroupMembers)
    → fetch_prev_group_members server group.name s ≡ ok prev
    → fetch_curr_group_members (server.reads s) group ≡ ok curr
    → process_endpoint_group_update server group s ≡ write_round server group.name prev curr s
unfolding process_endpoint_group_update
updated server group s prev curr h k = ground (arith, h, k)

-- On a server that carries out the writes of a group, whatever members and patches of it are
-- stored, if the current members can be fetched and the revisions do not overflow, the round
-- succeeds and leaves members stored that are the current ones, with their addresses and agents, at
-- a revision that is not earlier.
pub process_endpoint_group_update-Agrees :
    (server : Server) (group : EndpointGroup) (members : server.State → Option GroupMembers)
    (patches : server.State → List GroupMembersPatch) (curr : GroupMembers) (s : server.State)
    → IsReliable server group.name members patches
    → fetch_curr_group_members (server.reads s) group ≡ ok curr
    → (or_empty_members group.name (members s)).revision + length (patches s) + 2 < 2 ^ 31
    → (m : GroupMembers) × ((process_endpoint_group_update server group s).1 ≡ none)
      × (members (process_endpoint_group_update server group s).0 ≡ some m)
      × Agrees m curr
      × ((or_empty_members group.name (members s)).revision ≤ m.revision)
unfolding process_endpoint_group_update
process_endpoint_group_update-Agrees server group members patches curr s reliable fetched fit =
    let name = group.name in
    let base = or_empty_members "" (members s) in
    let old = or_empty_members name (members s) in
    let alike = or_empty-members name "" (members s) in
    let (prev, runs, free, later, through, still, bound) =
      apply_group_members_patches-ends base (patches s) (ground (arith, fit, alike.0)) in
    let m = raised old (next_members name prev curr) in
    let stores = write_round-Stores server name members patches reliable prev curr s free in
    let agrees =
      raised-Agrees name base old prev curr alike.0 alike.1 later
        (ground (arith, bound, fit, alike.0)) still in
    let path =
      updated server group s prev curr
        (fetch_prev-moved server name members patches prev s reliable runs) fetched in
    (m, ap (λ w. w.1) path ∙ stores.0, ap (λ w. members w.0) path ∙ stores.1, agrees.0, agrees.1)
