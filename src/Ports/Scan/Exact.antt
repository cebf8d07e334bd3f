-- ===== src/Ports/Scan/Exact.antt =====
-- processFlattenPorts returns, and its ports match the ports of the table.
use everoute.Common.{
  ℕ, zero, suc, ◌+◌, ◌-◌, ◌%◌, ◌≤◌, ◌<◌, ◌≡◌, refl, ◌∙◌, arith, String, true, false, ◌&&◌, Option,
  none, some, List, [], ◌∷◌, ◌++◌, All, All-append, leb, ◌==◌, nat_eq, Bool-cases, inl, inr,
  if◌then◌else◌, ap, ◌⊎◌,
}
use mathlib.Core.Path.{subst}
use native.Mathlib.Decide.{dec_lt}
use native.Mathlib.Nat.{mod-eq_of_lt}
use everoute.Ports.{RulePort}
use everoute.Ports.Cover.{matches, in_range, cal_port_range_mask-exact}
use everoute.Ports.Scan.{
  PortMap, map_len, mark_begin, mark_end, close_run, scan, process_flatten_ports,
}

matches-append :
    (ps qs : List RulePort) (x : ℕ) → matches (ps ++ qs) x ≡ matches ps x + matches qs x
matches-append [] qs x = omega arith
matches-append (p ∷ ps) qs x = omega (arith, matches-append ps qs x)

-- The ports match the table from `low` on, once each, and nothing else.
pub record CoversFrom (low : ℕ) (m : PortMap) (protocol : String) (ports : List RulePort)
    : Type 0 where
  pub once : (x : ℕ) → x < 65536 → matches ports x ≡ (if leb low x && m x then 1 else 0)
  pub protocols : All (λ p. p.protocol ≡ protocol) ports

-- the first port that is not yet in the list, after `index` iterations
abbrev low : ℕ → Option ℕ → ℕ
low index none = index
low index (some b) = b

-- an open run is a run of the table that does not contain port 0
abbrev Open : PortMap → ℕ → Option ℕ → Type 0
Open m index none = Unit
Open m index (some b) =
    (0 < b) × (b < index) × (index < 65536) × ((x : ℕ) → b ≤ x → x < index → m x ≡ true)

-- What the theorem says of the iterations that are left.
abbrev Scanned : ℕ → PortMap → String → ℕ → Option ℕ → Type 0
Scanned left m protocol index begin =
    (ports : List RulePort) × (scan left m protocol index begin ≡ some ports)
    × CoversFrom (low index begin) m protocol ports

-- an iteration that ends the run [b, e]
scan_close :
    (left index b e : ℕ) (m : PortMap) (protocol : String) (begin : Option ℕ)
    → 0 < b
    → b ≤ e
    → e ≤ index
    → index < 65536
    → ((x : ℕ) → x < 65536 → in_range b e x ≡ (leb b x && leb x index && m x))
    → close_run
        (mark_begin (m index) index begin)
        (mark_end (m index) index (mark_begin (m index) index begin))
      ≡ some (b, e)
    → Scanned left m protocol (index + 1) none
    → (ports : List RulePort) × (scan (suc left) m protocol index begin ≡ some ports)
      × CoversFrom b m protocol ports
unfolding scan
scan_close left index b e m protocol begin pos le below lt run closed (rest, returned, c) =
    let (ports, split, k) = cal_port_range_mask-exact b e protocol pos le (omega arith) in
    let eb : b % 65536 ≡ b = mod-eq_of_lt (omega arith) in
    let ee : e % 65536 ≡ e = mod-eq_of_lt (omega arith) in
    (
      ports ++ rest,
      rw (closed, scan, eb, ee, split, returned) refl,
      record {
        once = λ x h. ground (arith, matches-append ports rest x, k.once x h, c.once x h, run x h);
        protocols = All-append _ ports rest k.protocols c.protocols;
      },
    )

-- an iteration that ends no run
scan_next :
    (left index : ℕ) (m : PortMap) (protocol : String) (begin next : Option ℕ) (lo : ℕ)
    → mark_begin (m index) index begin ≡ next
    → close_run next (mark_end (m index) index next) ≡ none
    → (ports : List RulePort) × (scan left m protocol (index + 1) next ≡ some ports)
      × CoversFrom lo m protocol ports
    → (ports : List RulePort) × (scan (suc left) m protocol index begin ≡ some ports)
      × CoversFrom lo m protocol ports
unfolding scan
scan_next left index m protocol begin next lo marked opened (ports, returned, c) =
    (ports, step marked opened returned, c)
  where
    step :
        mark_begin (m index) index begin ≡ next
        → close_run next (mark_end (m index) index next) ≡ none
        → scan left m protocol (index + 1) next ≡ some ports
        → scan (suc left) m protocol index begin ≡ some ports
    step marked =
        subst
          (λ n.
            close_run n (mark_end (m index) index n) ≡ none
            → scan left m protocol (index + 1) n ≡ some ports
            → scan (suc left) m protocol index begin ≡ some ports)
          marked (λ opened returned. rw (opened, scan) returned)

-- the table at a port, and at the port of the iteration
compare_at : (m : PortMap) (x i : ℕ) → (x < i) ⊎ ((i < x) ⊎ ((m x ≡ m i) × (x ≡ i)))
compare_at m x i = elim (dec_lt x i) [
  | yes before ↦ inl before
  | no h ↦ elim (dec_lt i x) [
    | yes after ↦ inr (inl after)
    | no k ↦ let same : x ≡ i = omega arith in inr (inr (ap m same, same))
  ]
]

skip_false :
    (lo index n x : ℕ) (m : PortMap)
    → m index ≡ false
    → n ≡ (if leb (index + 1) x && m x then 1 else 0)
    → n ≡ (if leb index x && m x then 1 else 0)
skip_false lo index n x m closed e = ground (arith, compare_at m x index)

-- the run that the iteration at `index` closes ends at `e`
run_lem :
    (b e index x : ℕ) (m : PortMap)
    → ((y : ℕ) → b ≤ y → y < index → m y ≡ true)
    → ((e ≡ index) × (m index ≡ true)) ⊎ ((e + 1 ≡ index) × (m index ≡ false))
    → in_range b e x ≡ (leb b x && leb x index && m x)
run_lem b e index x m full last = ground (arith, compare_at m x index, full x)

scan-covers :
    (left index : ℕ) (m : PortMap) (protocol : String) (begin : Option ℕ)
    → index + left ≡ 65536
    → m 0 ≡ false
    → Open m index begin
    → Scanned left m protocol index begin
unfolding scan mark_begin mark_end close_run
scan-covers zero index m protocol none end first opened =
    ([], refl, record { once = λ x h. ground arith; protocols = tt })
scan-covers zero index m protocol (some b) end first opened = absurd (omega arith)
scan-covers (suc left) index m protocol none end first opened = elim (Bool-cases (m index)) [
  | inr closed ↦
      let (ports, returned, c) =
        scan-covers left (index + 1) m protocol none (omega arith) first tt in
      scan_next left index m protocol none none index (rw closed) refl (
        ports,
        returned,
        record {
          once = λ x h. skip_false 0 index _ x m closed (c.once x h);
          protocols = c.protocols;
        },
      )
  | inl port ↦ elim (Bool-cases (index == map_len - 1)) [
    | inl last ↦
        scan_close left index index index m protocol none (ground (arith, compare_at m 0 index))
          (omega arith) (omega arith) (omega arith)
          (λ x h. run_lem index index index x m (λ y h k. absurd (omega arith)) (inl (refl, port)))
          (rw (port, last) refl)
          (scan-covers left (index + 1) m protocol none (omega arith) first tt)
    | inr more ↦
        scan_next left index m protocol none (some index) index (rw port) (rw (port, more) refl) (
          scan-covers left (index + 1) m protocol (some index) (omega arith) first (
            ground (arith, compare_at m 0 index),
            omega arith,
            ground arith,
            λ x h k. ground (arith, compare_at m x index),
          ))
  ]
]
scan-covers (suc left) index m protocol (some b) end first opened = elim (Bool-cases (m index)) [
  | inr closed ↦
      scan_close left index b (index - 1) m protocol (some b) opened.0 (omega arith) (omega arith)
        (omega arith) (λ x h. run_lem b (index - 1) index x m opened.3 (inr (omega arith, closed)))
        (rw closed refl) (scan-covers left (index + 1) m protocol none (omega arith) first tt)
  | inl port ↦ elim (Bool-cases (index == map_len - 1)) [
    | inl last ↦
        scan_close left index b index m protocol (some b) opened.0 (omega arith) (omega arith)
          (omega arith) (λ x h. run_lem b index index x m opened.3 (inl (refl, port)))
          (rw (port, last) refl)
          (scan-covers left (index + 1) m protocol none (omega arith) first tt)
    | inr more ↦ scan_next left index m protocol (some b) (some b) b refl (rw (port, more) refl) (
        scan-covers left (index + 1) m protocol (some b) (omega arith) first (
          opened.0,
          omega arith,
          ground arith,
          λ x h k. ground (arith, compare_at m x index, opened.3 x),
        ))
  ]
]

from_zero :
    (m : PortMap) (protocol : String) (ports : List RulePort)
    → CoversFrom 0 m protocol ports
    → (x : ℕ) → x < 65536
    → matches ports x ≡ (if m x then 1 else 0)
from_zero m protocol ports c x h =
    let start : leb 0 x ≡ true = ground arith in c.once x h ∙ rw start

-- If port 0 is not in the table, processFlattenPorts returns; each port number of the table is
-- matched by exactly one of the RulePorts and no other port number by any.
pub process_flatten_ports-exact :
    (m : PortMap) (protocol : String)
    → m 0 ≡ false
    → (ports : List RulePort) × (process_flatten_ports m protocol ≡ some ports)
      × ((x : ℕ) → x < 65536 → matches ports x ≡ (if m x then 1 else 0))
      × All (λ p. p.protocol ≡ protocol) ports
unfolding process_flatten_ports
process_flatten_ports-exact m protocol first =
    let (ports, returned, c) = scan-covers 65536 0 m protocol none refl first tt in
    (ports, returned, from_zero m protocol ports c, c.protocols)
