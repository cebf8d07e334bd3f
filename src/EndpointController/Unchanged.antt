-- ===== src/EndpointController/Unchanged.antt =====
-- What a report of an agent leaves of the interfaces that are looked up under a tag, if none of them
-- is at the agent.
use everoute.Common.{
  ◌≡◌, refl, sym, ap, ◌∙◌, String, Bool, true, false, ◌&&◌, ◌||◌, not, List, [], ◌∷◌, any,
  any-append, ◌==◌, string_eq, arith, fold,
}
use everoute.Common.Set.{has, add, has-add}
use everoute.EndpointController.{Iface, Indexer, ip_addr_index_func, ifaces_at}
use everoute.EndpointController.Mirror.{
  Agents, reported, drop, Mirrors, IsAbsent, drop-IsAbsent, reported-drop, report-any,
}
use everoute.EndpointController.Status.{insert_agent, insert_agents_at}

any-split :
    (p q : Iface → Bool) (xs : List Iface)
    → any p xs ≡ (any (λ i. q i && p i) xs || any (λ i. not (q i) && p i) xs)
any-split p q [] = refl
any-split p q (x ∷ xs) = ground (arith, any-split p q xs)

any-weaken :
    (p q : Iface → Bool) (xs : List Iface)
    → ((i : Iface) → p i ≡ true → q i ≡ true)
    → any q xs ≡ false
    → any p xs ≡ false
any-weaken p q [] f h = refl
any-weaken p q (x ∷ xs) f h = ground (arith, f x, h, any-weaken p q xs f)

drop-absent : (name : String) (agents : Agents) → IsAbsent name agents → drop name agents ≡ agents
drop-absent name [] h = refl
drop-absent name (e ∷ rest) h = ground (arith, h.0, drop-absent name rest h.1)

module _ (cache : Indexer) where
  open cache use {State}

  -- the interfaces of the other agents stay
  elsewhere :
      (p : Iface → Bool) (name : String) (is : List Iface) (s s' : State) (agents : Agents)
      → Mirrors cache s agents
      → Mirrors cache s' ((name, is) ∷ drop name agents)
      → any (λ j. not (j.agent_name == name) && p j) (cache.list s)
        ≡ any (λ j. not (j.agent_name == name) && p j) (cache.list s')
  elsewhere p name is s s' agents m m' =
      let other = λ (j : Iface). not (j.agent_name == name) && p j in
      let rest = drop name agents in
      m.same other
      ∙ reported-drop p name agents m.proper
      ∙ sym (
          m'.same other
          ∙ ground (
            arith,
            report-any other name is m'.proper.0.1
                (λ i at. ground (arith, at, string_eq.beq_iff i.agent_name name)),
            reported-drop p name rest m'.proper.1,
            ap (reported p) (drop-absent name rest (drop-IsAbsent name agents)),
          ))

  pub unchanged :
      (tag test : Iface → Bool) (name : String) (is : List Iface) (s s' : State) (agents : Agents)
      → Mirrors cache s agents
      → Mirrors cache s' ((name, is) ∷ drop name agents)
      → any (λ i. tag i && i.agent_name == name) (cache.list s) ≡ false
      → any (λ i. tag i && i.agent_name == name) (cache.list s') ≡ false
      → any (λ i. tag i && test i) (cache.list s) ≡ any (λ i. tag i && test i) (cache.list s')
  unchanged tag test name is s s' agents m m' gone gone' =
      let p = λ (i : Iface). tag i && test i in
      let at = λ (i : Iface). i.agent_name == name in
      let here = λ (i : Iface). at i && p i in
      let there = λ (i : Iface). tag i && i.agent_name == name in
      any-split p at (cache.list s)
      ∙ ap (λ b. b || any (λ i. not (at i) && p i) (cache.list s))
          (any-weaken here there (cache.list s) (λ i h. ground (arith, h)) gone)
      ∙ elsewhere p name is s s' agents m m'
      ∙ sym (
          any-split p at (cache.list s')
          ∙ ap (λ b. b || any (λ i. not (at i) && p i) (cache.list s'))
              (any-weaken here there (cache.list s') (λ i h. ground (arith, h)) gone'))

  insert_agents-has :
      (x : String) (is : List Iface) (set : List String)
      → has x (fold (insert_agent cache) set is) ≡ (has x set || any (λ i. i.agent_name == x) is)
  insert_agents-has x [] set = ground arith
  insert_agents-has x (i ∷ is) set =
      ground (arith, insert_agents-has x is (add i.agent_name set), has-add i.agent_name x set)

  -- the agents with one of some addresses
  pub agents-unchanged :
      (x name : String) (is : List Iface) (s s' : State) (agents : Agents)
      (ips set set' : List String)
      → Mirrors cache s agents
      → Mirrors cache s' ((name, is) ∷ drop name agents)
      → any (λ i. i.agent_name == name) (ifaces_at cache ips s) ≡ false
      → any (λ i. i.agent_name == name) (ifaces_at cache ips s') ≡ false
      → has x set ≡ has x set'
      → has x (fold (insert_agents_at cache s) set ips)
        ≡ has x (fold (insert_agents_at cache s') set' ips)
  agents-unchanged x name is s s' agents [] set set' m m' gone gone' same = same
  agents-unchanged x name is s s' agents (ip ∷ ips) set set' m m' gone gone' same =
      let at = λ (i : Iface). i.agent_name == name in
      let test = λ (i : Iface). i.agent_name == x in
      let tag = λ (i : Iface). has ip (ip_addr_index_func i) in
      let found = cache.by_index ip_addr_index_func ip s in
      let found' = cache.by_index ip_addr_index_func ip s' in
      let split = any-append at found (ifaces_at cache ips s) in
      let split' = any-append at found' (ifaces_at cache ips s') in
      let here =
        unchanged tag test name is s s' agents m m'
          (ground (arith, gone, split, cache.any-by_index at ip_addr_index_func ip s))
          (ground (arith, gone', split', cache.any-by_index at ip_addr_index_func ip s')) in
      agents-unchanged x name is s s' agents ips (insert_agents_at cache s set ip)
        (insert_agents_at cache s' set' ip) m m' (ground (arith, gone, split))
        (ground (arith, gone', split'))
        (ground (
          arith,
          insert_agents-has x found set,
          insert_agents-has x found' set',
          cache.any-by_index test ip_addr_index_func ip s,
          cache.any-by_index test ip_addr_index_func ip s',
          here,
          same,
        ))
