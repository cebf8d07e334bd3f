-- ===== src/Datapath/Rules/Calls.antt =====
-- A sequence of calls refines a set of references, on switches that carry out the calls.
use everoute.Common.{
  ℕ, ◌≡◌, refl, String, Bool, true, false, some, List, [], ◌∷◌, nat_eq, string_eq, arith,
}
use everoute.Common.Dict.{lookup}
use everoute.Datapath.Rules.{
  Place, EveroutePolicyRule, DpManager, Switches, Outcome, new_dp_manager,
}
use everoute.Datapath.Rules.Loops.{IsReliable, AllDistinct}
use everoute.Datapath.Rules.Counted.{
  Call, adds, removes, References, after, IsFair, AreFair, all_after, call_once, call_all,
  Implements,
}
use everoute.Datapath.Rules.Refines.{Ends, add-Ends}
use everoute.Datapath.Rules.Released.{remove-Ends}

module _ (switches : Switches) (bridges : List String)
    (installed : switches.State → String → ℕ → Bool) (body : String → EveroutePolicyRule)
    (distinct : AllDistinct bridges) {accepts : EveroutePolicyRule → Place → Bool}
    (h : IsReliable switches installed accepts) where
  open switches use {State}

  pub call-Ends :
      (call : Call) (m : DpManager) (s : State) (refers : References)
      → IsFair accepts body call refers
      → Implements switches bridges installed body m s refers
      → Ends switches bridges installed body distinct h
          (call_once switches bridges call m s)
          (after call refers)
  call-Ends (adds rule place name) m s refers fair inv =
      add-Ends switches bridges installed body distinct h rule place name m s refers fair.0 fair.1
        inv
  call-Ends (removes id name) m s refers fair inv =
      remove-Ends switches bridges installed body distinct h id name m s refers fair inv

  all-Ends :
      (calls : List Call) (m : DpManager) (s : State) (refers : References)
      → AreFair accepts body calls refers
      → Implements switches bridges installed body m s refers
      → Ends switches bridges installed body distinct h
          (call_all switches bridges calls m s)
          (all_after calls refers)
  all-Ends [] m s refers fair inv =
      (record { manager = m; state = s; done = true }, refl, refl, inv)
  all-Ends (call ∷ calls) m s refers fair inv =
      let (o, ended, done, inv') = call-Ends call m s refers fair.0 inv in
      let (o', ended', done', inv'') =
        all-Ends calls o.manager o.state (after call refers) fair.1 inv' in
      (o', rw (ended, done, call_all) ended', done', inv'')

  -- On switches that carry out the calls and have no flow at first, a sequence of calls of
  -- AddEveroutePolicyRule and RemoveEveroutePolicyRule on an empty database never panics and
  -- returns no error. Afterwards the database has an entry under an ID exactly if a name refers to
  -- it: was added and not removed since; the entry lists these names, and its rule has a flow on
  -- every bridge. Every flow of a bridge is that of one entry. Rules that are added with one ID
  -- must be equal and accepted by the bridges at their places, no ID is removed under a name that does not refer to it while others do, and
  -- no bridge stands twice.
  pub call_all-Implements :
      (calls : List Call) (s : State)
      → AreFair accepts body calls (λ id name. false)
      → ((v : String) (n : ℕ) → installed s v n ≡ false)
      → (o : Outcome State) × (call_all switches bridges calls new_dp_manager s ≡ some o)
        × (o.done ≡ true)
        × Implements switches bridges installed body o.manager o.state
            (all_after calls (λ id name. false))
  unfolding lookup
  call_all-Implements calls s fair none_there =
      all-Ends calls new_dp_manager s (λ id name. false) fair
        (record {
          holds = λ id n. refl;
          owned = λ v n b there. absurd (ground (arith, there, none_there v n));
          alone = λ i j v n b own own'. absurd (ground (arith, own));
        })
