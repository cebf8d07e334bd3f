-- ===== src/Reconciler/Rounds/Watch.antt =====
-- The watches of GroupMembersPatch and GroupMembers in SetupWithManager of
-- pkg/agent/controller/policy/policy_controller.go, with addPatch, and the queue of ReconcilePatch.
-- The work queue of client-go is the set of the names that it holds; a name that asks to come back
-- is in it again. A handler and a round of ReconcilePatch are one step each.
pub mod Elsewhere
pub mod Pending
use everoute.Common.{
  ℕ, ◌≡◌, String, Bool, true, false, Option, none, some, List, [], ◌∷◌, if◌then◌else◌, ok,
  string_eq,
}
use everoute.Common.Set.{add, remove}
use everoute.Api.{GroupMembers, GroupMembersPatch}
use everoute.Cache.Group.{
  GroupCache, new_group_cache, add_patch, add_group_membership, del_group_membership,
}
use everoute.Cache.Rule.{CompleteRule, Env}
use everoute.Reconciler.Sync.{Datapath}
use everoute.Reconciler.Rounds.{Round, idle, worked, reconcile_patch}

-- the group cache and the names in the queue
pub record Watched : Type 0 where
  pub groups : GroupCache
  pub queue : List String

abbrev pub nothing_watched : Watched
nothing_watched = record { groups = new_group_cache; queue = [] }

-- addPatch; an event may be without object
unfoldable pub patch_created : Option GroupMembersPatch → Watched → Watched
unfolding add add_patch
patch_created none w = w
patch_created (some patch) w = record {
  groups = add_patch w.groups patch;
  queue = add patch.applied_to_group_members.name w.queue;
}

unfoldable pub members_created : GroupMembers → Watched → Watched
unfolding add add_group_membership
members_created members w = record {
  groups = add_group_membership w.groups members;
  queue = add members.name w.queue;
}

unfoldable pub members_deleted : String → Watched → Watched
unfolding del_group_membership
members_deleted name w = record w { groups = del_group_membership w.groups name }

-- what a round for a name that the queue hands out leaves: RequeueAfter puts the name back
unfoldable pub after_round : {S : Type 0} → String → Round S → Watched → Watched
unfolding add remove
after_round name idle w = record w { queue = remove name w.queue }
after_round name (worked rules groups s again) w = record {
  groups = groups;
  queue = if again then add name (remove name w.queue) else remove name w.queue;
}

-- An event of a watch, or a round of ReconcilePatch that does not end the process, with any rules.
pub data Event (env : Env) (d : Datapath) (attempts : ℕ) : Watched → Watched → Type 1 where
  creates_patch :
      (p : Option GroupMembersPatch) (w : Watched) → Event env d attempts w (patch_created p w)
  creates_members : (m : GroupMembers) (w : Watched) → Event env d attempts w (members_created m w)
  deletes_members : (name : String) (w : Watched) → Event env d attempts w (members_deleted name w)
  reconciles :
      (name : String) (rules : List CompleteRule) (s : d.State) (round : Round d.State)
      (w : Watched)
      → reconcile_patch env d attempts name rules w.groups s ≡ ok round
      → Event env d attempts w (after_round name round w)

pub data Reached (env : Env) (d : Datapath) (attempts : ℕ) : Watched → Type 1 where
  initially : Reached env d attempts nothing_watched
  after :
      {w w' : Watched}
      → Reached env d attempts w
      → Event env d attempts w w'
      → Reached env d attempts w'
