-- ===== src/EndpointController/Mirror.antt =====
-- The cache of interfaces mirrors the agents: after any events it holds the interfaces that each
-- agent reported last.
use everoute.Common.{
  ◌≡◌, refl, sym, ap, ◌∙◌, String, Bool, true, false, ◌&&◌, ◌||◌, not, List, [], ◌∷◌, any, All,
  All-map, any-All, any-ext, any-none, All-any, All-zip, any-false, ◌==◌, string_eq, arith,
  if◌then◌else◌, Bool-cases, inl, inr,
}
use everoute.Common.Set.{has}
use everoute.EndpointController.{
  Iface, Indexer, iface_key_func, agent_index_func, add_all, delete_all,
}
use everoute.EndpointController.Keys.{no_slash, iface_key_func-agent}

-- the agents that there are, with the interfaces that each reported last
abbrev pub Agents : Type 0
Agents = List (String × List Iface)

-- whether an agent reported an interface that passes the test
abbrev pub reported : (Iface → Bool) → Agents → Bool
reported p agents = any (λ entry. any p entry.1) agents

abbrev pub drop : String → Agents → Agents
drop name [] = []
drop name (entry ∷ rest) =
    let more = drop name rest in if entry.0 == name then more else entry ∷ more

abbrev pub same_key : Iface → Iface → Bool
same_key j i = iface_key_func j == iface_key_func i

-- no two interfaces of an agent have one key, and all are at the agent
abbrev pub KeysDiffer : List Iface → Type 0
KeysDiffer [] = Unit
KeysDiffer (i ∷ rest) = (any (same_key i) rest ≡ false) × KeysDiffer rest

abbrev pub IsReport : String → List Iface → Type 0
IsReport name is = (no_slash name ≡ true) × All (λ i. i.agent_name ≡ name) is × KeysDiffer is

module _ (cache : Indexer) where
  open cache use {State}

  any-delete_all :
      (p : Iface → Bool) (is : List Iface) (s : State)
      → any p (cache.list (delete_all cache is s))
        ≡ any (λ j. not (any (same_key j) is) && p j) (cache.list s)
  any-delete_all p [] s = refl
  any-delete_all p (i ∷ rest) s =
      any-delete_all p rest (cache.delete i s)
      ∙ cache.any-delete (λ j. not (any (same_key j) rest) && p j) i s
      ∙ any-ext
          (λ j. not (iface_key_func j == iface_key_func i) && (not (any (same_key j) rest) && p j))
          (λ j. not (any (same_key j) (i ∷ rest)) && p j) (cache.list s) (λ j. ground arith)

  any-add_all :
      (p : Iface → Bool) (is : List Iface) (s : State)
      → KeysDiffer is
      → any p (cache.list (add_all cache is s))
        ≡ (any p is || any (λ j. not (any (same_key j) is) && p j) (cache.list s))
  any-add_all p [] s d = refl
  any-add_all p (i ∷ rest) s d =
      any-add_all p rest (cache.add i s) d.1
      ∙ ap (λ b. any p rest || b) (cache.any-add (λ j. not (any (same_key j) rest) && p j) i s)
      ∙ ground (
        arith,
        d.0,
        any-ext
            (λ j.
              not (iface_key_func j == iface_key_func i) && (not (any (same_key j) rest) && p j))
            (λ j. not (any (same_key j) (i ∷ rest)) && p j) (cache.list s) (λ j. ground arith),
      )

  abbrev IsNamed : List Iface → Type 0
  IsNamed = All (λ j. no_slash j.agent_name ≡ true)

  -- the index lists an interface of the key exactly for those at the agent
  indexed_at :
      (name : String) (s : State) (j : Iface)
      → IsNamed (cache.list s)
      → no_slash j.agent_name ≡ true
      → ((q : Iface → Bool) → q j ≡ true → any q (cache.list s) ≡ true)
      → any (same_key j) (cache.by_index agent_index_func name s) ≡ (j.agent_name == name)
  unfolding agent_index_func has
  indexed_at name s j named plain self =
      let q = λ (i : Iface). has name (agent_index_func i) && same_key j i in
      cache.any-by_index (same_key j) agent_index_func name s
      ∙ elim (Bool-cases (j.agent_name == name)) [
        | inl here ↦
            self q (ground (arith, here, string_eq.beq_iff (iface_key_func j) (iface_key_func j)))
            ∙ sym here
        | inr other ↦
            any-All q (λ i. false) (cache.list s)
              (All-map (λ i. no_slash i.agent_name ≡ true) (λ i. q i ≡ false)
                (λ i h. ground (
                  arith,
                  other,
                  iface_key_func-agent j i plain h,
                  string_eq.beq_iff i.agent_name name,
                  string_eq.beq_iff j.agent_name name,
                ))
                (cache.list s) named)
            ∙ any-false (cache.list s)
            ∙ sym other
      ]

  cleared :
      (p : Iface → Bool) (name : String) (s : State)
      → IsNamed (cache.list s)
      → any p (cache.list (delete_all cache (cache.by_index agent_index_func name s) s))
        ≡ any (λ j. not (j.agent_name == name) && p j) (cache.list s)
  cleared p name s named =
      let found = cache.by_index agent_index_func name s in
      any-delete_all p found s
      ∙ any-All (λ j. not (any (same_key j) found) && p j) (λ j. not (j.agent_name == name) && p j)
          (cache.list s)
          (All-map
            (λ j.
              (no_slash j.agent_name ≡ true)
              × ((q : Iface → Bool) → q j ≡ true → any q (cache.list s) ≡ true))
            (λ j. (not (any (same_key j) found) && p j) ≡ (not (j.agent_name == name) && p j))
            (λ j h. ap (λ b. not b && p j) (indexed_at name s j named h.0 h.1)) (cache.list s)
            (All-zip (λ j. no_slash j.agent_name ≡ true)
              (λ j. (q : Iface → Bool) → q j ≡ true → any q (cache.list s) ≡ true) (cache.list s)
              named (All-any (cache.list s))))

  -- the cache holds what the agents reported
  pub record Mirrors (s : State) (agents : Agents) : Type 0 where
    pub same : (p : Iface → Bool) → any p (cache.list s) ≡ reported p agents
    pub proper : All (λ e. IsReport e.0 e.1) agents

-- what a report tells of its interfaces
pub report-any :
    (p : Iface → Bool) (name : String) (is : List Iface)
    → All (λ i. i.agent_name ≡ name) is
    → ((i : Iface) → i.agent_name ≡ name → p i ≡ false)
    → any p is ≡ false
report-any p name is all h =
    any-All p (λ i. false) is (All-map (λ i. i.agent_name ≡ name) (λ i. p i ≡ false) h is all)
    ∙ any-false is

reported-slash :
    (agents : Agents)
    → All (λ e. IsReport e.0 e.1) agents
    → reported (λ j. not (no_slash j.agent_name)) agents ≡ false
reported-slash [] h = refl
reported-slash (e ∷ rest) h = ground (
  arith,
  report-any (λ j. not (no_slash j.agent_name)) e.0 e.1 h.0.1 (λ i at. ground (arith, h.0.0, at)),
  reported-slash rest h.1,
)

pub reported-drop :
    (p : Iface → Bool) (name : String) (agents : Agents)
    → All (λ e. IsReport e.0 e.1) agents
    → reported (λ j. not (j.agent_name == name) && p j) agents ≡ reported p (drop name agents)
reported-drop p name [] h = refl
reported-drop p name (e ∷ rest) h = elim (Bool-cases (e.0 == name)) [
  | inl gone ↦ rw gone (
      ground (
        arith,
        report-any (λ j. not (j.agent_name == name) && p j) e.0 e.1 h.0.1
            (λ i at. ground (arith, gone, at)),
        reported-drop p name rest h.1,
      ))
  | inr kept ↦ rw kept (
      ground (
        arith,
        any-All (λ j. not (j.agent_name == name) && p j) p e.1
            (All-map (λ i. i.agent_name ≡ e.0) (λ i. (not (i.agent_name == name) && p i) ≡ p i)
              (λ i at. ground (arith, kept, at)) e.1 h.0.1),
        reported-drop p name rest h.1,
      ))
]

drop-All :
    (name : String) (agents : Agents)
    → All (λ e. IsReport e.0 e.1) agents
    → All (λ e. IsReport e.0 e.1) (drop name agents)
drop-All name [] h = tt
drop-All name (e ∷ rest) h = elim (Bool-cases (e.0 == name)) [
  | inl gone ↦ rw gone (drop-All name rest h.1)
  | inr kept ↦ rw kept (h.0, drop-All name rest h.1)
]

abbrev pub IsAbsent : String → Agents → Type 0
IsAbsent name agents = All (λ e. (e.0 == name) ≡ false) agents

pub drop-IsAbsent : (name : String) (agents : Agents) → IsAbsent name (drop name agents)
drop-IsAbsent name [] = tt
drop-IsAbsent name (e ∷ rest) = elim (Bool-cases (e.0 == name)) [
  | inl gone ↦ rw gone (drop-IsAbsent name rest)
  | inr kept ↦ rw kept (kept, drop-IsAbsent name rest)
]

reported-absent :
    (name : String) (agents : Agents)
    → All (λ e. IsReport e.0 e.1) agents
    → IsAbsent name agents
    → reported (λ j. j.agent_name == name) agents ≡ false
reported-absent name [] h a = refl
reported-absent name (e ∷ rest) h a = ground (
  arith,
  report-any (λ j. j.agent_name == name) e.0 e.1 h.0.1 (λ i at. ground (arith, a.0, at)),
  reported-absent name rest h.1 a.1,
)

module _ (cache : Indexer) where
  open cache use {State}

  Mirrors-IsNamed :
      (s : State) (agents : Agents)
      → Mirrors cache s agents
      → All (λ j. no_slash j.agent_name ≡ true) (cache.list s)
  Mirrors-IsNamed s agents m =
      let slashed = λ (j : Iface). not (no_slash j.agent_name) in
      All-map (λ j. slashed j ≡ false) (λ j. no_slash j.agent_name ≡ true)
        (λ j h. ground (arith, h)) (cache.list s)
        (any-none slashed (cache.list s) (m.same slashed ∙ reported-slash agents m.proper))

  -- the deletion of all interfaces of an agent
  pub cleared-Mirrors :
      (s : State) (agents : Agents) (name : String)
      → Mirrors cache s agents
      → Mirrors cache
          (delete_all cache (cache.by_index agent_index_func name s) s)
          (drop name agents)
  cleared-Mirrors s agents name m = record {
    same = λ p.
        cleared cache p name s (Mirrors-IsNamed s agents m)
        ∙ m.same (λ j. not (j.agent_name == name) && p j)
        ∙ reported-drop p name agents m.proper;
    proper = drop-All name agents m.proper;
  }

  -- none of the interfaces in the cache has the key of one that is added for a new agent
  fresh_keys :
      (name : String) (is : List Iface) (s : State) (agents : Agents)
      → Mirrors cache s agents
      → IsAbsent name agents
      → IsReport name is
      → All (λ j. any (same_key j) is ≡ false) (cache.list s)
  fresh_keys name is s agents m absent report =
      All-map (λ j. (no_slash j.agent_name ≡ true) × ((j.agent_name == name) ≡ false))
        (λ j. any (same_key j) is ≡ false)
        (λ j h. report-any (same_key j) name is report.1 (λ i at. ground (
          arith,
          at,
          report.0,
          h.1,
          iface_key_func-agent j i h.0 (at_plain i at),
          string_eq.beq_iff j.agent_name name,
        )))
        (cache.list s)
        (All-zip (λ j. no_slash j.agent_name ≡ true) (λ j. (j.agent_name == name) ≡ false)
          (cache.list s) (Mirrors-IsNamed s agents m)
          (any-none (λ j. j.agent_name == name) (cache.list s)
            (m.same (λ j. j.agent_name == name) ∙ reported-absent name agents m.proper absent)))
    where
      at_plain : (i : Iface) → i.agent_name ≡ name → no_slash i.agent_name ≡ true
      at_plain i at = ap no_slash at ∙ report.0

  pub added-Mirrors :
      (name : String) (is : List Iface) (s : State) (agents : Agents)
      → Mirrors cache s agents
      → IsAbsent name agents
      → IsReport name is
      → Mirrors cache (add_all cache is s) ((name, is) ∷ agents)
  added-Mirrors name is s agents m absent report = record {
    same = λ p.
        any-add_all cache p is s report.2
        ∙ ap (λ b. any p is || b)
            (any-All (λ j. not (any (same_key j) is) && p j) p (cache.list s)
                (All-map (λ j. any (same_key j) is ≡ false)
                  (λ j. (not (any (same_key j) is) && p j) ≡ p j) (λ j h. ground (arith, h))
                  (cache.list s) (fresh_keys name is s agents m absent report))
              ∙ m.same p);
    proper = (report, m.proper);
  }
