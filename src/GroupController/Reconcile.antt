-- ===== src/GroupController/Reconcile.antt =====
-- Reconcile of pkg/controller/group/group_controller.go: the branches by the state of the group, and
-- the writes of members and patches. The Kubernetes API server is an interface: a write answers
-- whether it succeeded. A nil pointer of members reads as the empty members of revision 0.
pub mod Converges
pub mod Round
use everoute.Common.{
  ℕ, ◌+◌, ◌-◌, ◌%◌, String, Bool, true, false, ◌&&◌, ◌||◌, not, Option, none, some, List, [], ◌∷◌,
  if◌then◌else◌, Result, ok, err,
}
use everoute.Api.{EndpointGroup, GroupMembers, GroupMembersPatch}
use everoute.Cache.{next_revision, revision_lt, i32_mod}
use everoute.Labels.{is_nil}
use everoute.Text.{int32_text}
use everoute.GroupController.Patches.{
  to_group_members_patch, is_empty_patch, apply_group_members_patches,
}
use everoute.GroupController.Select.{
  Reads, ReadError, not_found, failed, FetchError, read_error, fetch_curr_group_members,
}
use Prim.Native.String.{◌++◌ as then_text}

-- an EndpointGroup with the metadata that Reconcile reads
pub record GroupObject : Type 0 where
  pub group : EndpointGroup
  pub finalizers : List String
  pub is_deleted : Bool

-- constants.DependentsCleanFinalizer
abbrev pub dependents_clean_finalizer : String
dependents_clean_finalizer = "finalizer.everoute.io/dependentsclean"

-- constants.NumOfRetainedGroupMembersPatches
abbrev pub num_of_retained_group_members_patches : ℕ
num_of_retained_group_members_patches = 3

-- The API server: reads, and writes that return the next state and whether they succeeded. The
-- members and patches of a group are those with its name as the owner label.
pub record Server : Type 1 where
  pub State : Type 0
  pub reads : State → Reads
  pub get_group : State → String → Result ReadError GroupObject
  pub get_members : State → String → Result ReadError GroupMembers
  pub list_patches : State → String → Result ReadError (List GroupMembersPatch)
  pub update_group : GroupObject → State → State × Bool
  pub create_members : GroupMembers → State → State × Bool
  pub update_members : GroupMembers → State → State × Bool
  pub create_patch : String → GroupMembersPatch → State → State × Bool
  pub delete_patch : String → String → State → State × Bool
  pub delete_all_patches : String → State → State × Bool
  pub delete_all_members : String → State → State × Bool

pub data ReconcileError : Type 0 where
  fetch_error : FetchError → ReconcileError
  write_failed : ReconcileError
  out_of_fuel : ReconcileError

-- ctrl.Result: whether to come back
pub data Requeue : Type 0 where
  done : Requeue
  after_nanosecond : Requeue

unfoldable pub is_new_endpoint_group : GroupObject → Bool
is_new_endpoint_group object = not object.is_deleted && is_nil object.finalizers

unfoldable pub is_deleting_endpoint_group : GroupObject → Bool
is_deleting_endpoint_group object = object.is_deleted

abbrev pub empty_members : String → GroupMembers
empty_members name = record { name = name; revision = 0; group_members = [] }

-- fmt.Sprintf("patch-%s-revision%d", groupName, revision)
abbrev pub patch_name : String → ℕ → String
patch_name group_name revision =
    then_text "patch-" (then_text group_name (then_text "-revision" (int32_text revision)))

-- the two `continue` of cleanupOldPatches
unfoldable pub is_retained : ℕ → GroupMembersPatch → Bool
is_retained revision patch =
    let applied = patch.applied_to_group_members.revision in
    not (revision_lt applied revision)
    || not (
        revision_lt num_of_retained_group_members_patches
          ((revision + i32_mod - applied) % i32_mod))

-- members and patch of a round, from the previous and the current members
unfoldable pub next_members : String → GroupMembers → GroupMembers → GroupMembers
next_members group_name prev curr =
    let patch = to_group_members_patch (some prev) (some curr) in
    record {
      name = group_name;
      revision = if is_empty_patch patch then prev.revision else next_revision prev.revision;
      group_members = curr.group_members;
    }

unfoldable pub next_patch : String → GroupMembers → GroupMembers → GroupMembersPatch
next_patch group_name prev curr =
    let patch = to_group_members_patch (some prev) (some curr) in
    if is_empty_patch patch then patch else record patch {
      applied_to_group_members = record { name = group_name; revision = prev.revision };
    }

module _ (server : Server) where
  open server use {State}

  -- a state, and an error or nothing
  abbrev pub Written : Type 0
  Written = State × Option ReconcileError

  abbrev pub checked : State × Bool → Written
  checked (s, true) = (s, none)
  checked (s, false) = (s, some write_failed)

  -- `if err != nil { return err }`
  abbrev pub then_write : Written → (State → Written) → Written
  then_write (s, none) next = next s
  then_write (s, some e) next = (s, some e)

  unfoldable pub sync_group_members_patch : String → GroupMembersPatch → State → Written
  sync_group_members_patch group_name patch s =
      let named = record patch {
        name = patch_name group_name patch.applied_to_group_members.revision;
      } in
      if is_empty_patch patch then (s, none) else checked (server.create_patch group_name named s)

  unfoldable pub raise_members : GroupMembers → GroupMembers → State → Written
  raise_members group_members members s =
      let raised = record group_members {
        revision = members.revision;
        group_members = members.group_members;
      } in
      if not (revision_lt group_members.revision members.revision)
      then (s, none)
      else checked (server.update_members raised s)

  unfoldable pub sync_found :
      String → GroupMembers → State → Result ReadError GroupMembers → Written
  unfolding raise_members
  sync_found group_name members s (ok group_members) = raise_members group_members members s
  sync_found group_name members s (err not_found) =
      then_write (checked (server.create_members (empty_members group_name) s))
        (raise_members (empty_members group_name) members)
  sync_found group_name members s (err (failed e)) = (s, some (fetch_error (read_error (failed e))))

  unfoldable pub sync_group_members : String → GroupMembers → State → Written
  unfolding sync_found
  sync_group_members group_name members s =
      sync_found group_name members s (server.get_members s group_name)

  -- the loop over the patches
  unfoldable pub delete_old : String → ℕ → List GroupMembersPatch → State → Written
  unfolding is_retained
  delete_old group_name revision [] s = (s, none)
  delete_old group_name revision (patch ∷ rest) s =
      let kept = delete_old group_name revision rest s in
      if is_retained revision patch
      then kept
      else then_write (checked (server.delete_patch group_name patch.name s))
          (delete_old group_name revision rest)

  unfoldable pub cleanup_listed :
      String → ℕ → State → Result ReadError (List GroupMembersPatch) → Written
  unfolding delete_old
  cleanup_listed group_name revision s (err e) = (s, some (fetch_error (read_error e)))
  cleanup_listed group_name revision s (ok patches) = delete_old group_name revision patches s

  unfoldable pub cleanup_old_patches : String → ℕ → State → Written
  unfolding cleanup_listed
  cleanup_old_patches group_name revision s =
      cleanup_listed group_name revision s (server.list_patches s group_name)

  -- the stored members, moved on by the patches
  unfoldable pub moved_on :
      GroupMembers → Result ReadError (List GroupMembersPatch) → Result ReconcileError GroupMembers
  moved_on group_members (err e) = err (fetch_error (read_error e))
  moved_on group_members (ok patches) = elim (apply_group_members_patches group_members patches) [
    | none ↦ err out_of_fuel
    | some members ↦ ok members
  ]

  unfoldable pub prev_of :
      Result ReadError GroupMembers
      → Result ReadError (List GroupMembersPatch)
      → Result ReconcileError GroupMembers
  unfolding moved_on
  prev_of (ok group_members) patches = moved_on group_members patches
  prev_of (err not_found) patches = moved_on (empty_members "") patches
  prev_of (err (failed e)) patches = err (fetch_error (read_error (failed e)))

  unfoldable pub fetch_prev_group_members : String → State → Result ReconcileError GroupMembers
  unfolding prev_of
  fetch_prev_group_members group_name s =
      prev_of (server.get_members s group_name) (server.list_patches s group_name)

  -- the three writes of a round
  unfoldable pub write_round : String → GroupMembers → GroupMembers → State → Written
  unfolding sync_group_members_patch sync_group_members cleanup_old_patches next_members next_patch
  write_round group_name prev curr s =
      let members = next_members group_name prev curr in
      then_write (sync_group_members_patch group_name (next_patch group_name prev curr) s) (λ s1.
        then_write (sync_group_members group_name members s1)
          (cleanup_old_patches group_name members.revision))

  unfoldable pub process_endpoint_group_update : EndpointGroup → State → Written
  unfolding fetch_prev_group_members write_round
  process_endpoint_group_update group s = elim (fetch_prev_group_members group.name s) [
    | err e ↦ (s, some e)
    | ok prev ↦ elim (fetch_curr_group_members (server.reads s) group) [
      | err e ↦ (s, some (fetch_error e))
      | ok curr ↦ write_round group.name prev curr s
    ]
  ]

  unfoldable pub process_endpoint_group_create : GroupObject → State → Written
  process_endpoint_group_create object s =
      checked
        (server.update_group (record object { finalizers = dependents_clean_finalizer ∷ [] }) s)

  unfoldable pub process_endpoint_group_delete : GroupObject → State → Written
  process_endpoint_group_delete object s =
      then_write (checked (server.delete_all_patches object.group.name s)) (λ s1.
        then_write (checked (server.delete_all_members object.group.name s1))
          (λ s2. checked (server.update_group (record object { finalizers = [] }) s2)))

  abbrev pub answer : Requeue → Written → State × Result ReconcileError Requeue
  answer requeue (s, none) = (s, ok requeue)
  answer requeue (s, some e) = (s, err e)

  -- Reconcile, for the name of a request
  unfoldable pub reconcile : String → State → State × Result ReconcileError Requeue
  unfolding is_new_endpoint_group is_deleting_endpoint_group process_endpoint_group_create
      process_endpoint_group_delete process_endpoint_group_update
  reconcile name s = elim (server.get_group s name) [
    | err not_found ↦ (s, ok done)
    | err (failed e) ↦ (s, err (fetch_error (read_error (failed e))))
    | ok object ↦
        if is_new_endpoint_group object
        then answer after_nanosecond (process_endpoint_group_create object s)
        else if is_deleting_endpoint_group object
        then answer done (process_endpoint_group_delete object s)
        else answer done (process_endpoint_group_update object.group s)
  ]
