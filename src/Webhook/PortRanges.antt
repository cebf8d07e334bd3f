-- ===== src/Webhook/PortRanges.antt =====
-- The port ranges that the webhook accepts are ranges that the agent reads.
use Prim.Native.Char.{Char, code}
use everoute.Common.{
  ℕ, ◌≡◌, refl, ◌∙◌, ◌≤◌, String, Bool, true, false, ◌&&◌, ◌||◌, not, none, List, [], ◌∷◌, ◌++◌,
  ltb, ◌==◌, nat_eq, string_eq, ok, arith, All, Bool-cases, Option-cases, inl, inr,
}
use everoute.Api.{SecurityPolicyPort, protocol_icmp, port_type_name}
use everoute.Text.{split, all_digits, is_digit, is_number, decimal, parse_uint16, push}
use everoute.Ports.{RulePort}
use everoute.Ports.Flatten.{
  is_pair, first_text, second_text, unmarshal_port_range, Tables, empty_tables, mark_tables,
  name_ports, sub_ranges, flatten_port, flatten_loop, flatten_ports,
}
use everoute.Ports.Flatten.Total.{collect-total}
use everoute.Webhook.{
  validate_sub_range, validate_sub_ranges, is_multiple, validate_port_range, validate_port,
  validate_ports,
}

-- a text without a character
abbrev pub lacks : ℕ → String → Bool
lacks sep String.[] = true
lacks sep (String.◌∷◌ c s) = not (code c == sep) && lacks sep s

abbrev all_pieces : List String → Bool
all_pieces [] = true
all_pieces (p ∷ ps) = all_digits p && all_pieces ps

pub split-lacks : (sep : ℕ) (s : String) → lacks sep s ≡ true → split sep s ≡ s ∷ []
unfolding split
split-lacks sep String.[] h = refl
split-lacks sep (String.◌∷◌ c s) h =
    let other : (code c == sep) ≡ false = ground (arith, h) in
    rw (other, split-lacks sep s (ground (arith, h))) refl

digits-lack : (s : String) → all_digits s ≡ true → lacks b',' s ≡ true
unfolding all_digits
digits-lack String.[] h = refl
digits-lack (String.◌∷◌ c s) h = ground (arith, h, digits-lack s)

push-pieces :
    (c : Char) (ps : List String)
    → all_pieces (push c ps) ≡ true
    → (is_digit (code c) && all_pieces ps) ≡ true
unfolding all_digits
push-pieces c [] h = ground (arith, h)
push-pieces c (p ∷ ps) h = ground (arith, h)

pieces-lack : (s : String) → all_pieces (split b'-' s) ≡ true → lacks b',' s ≡ true
unfolding split
pieces-lack String.[] h = refl
pieces-lack (String.◌∷◌ c s) h = elim (Bool-cases (code c == b'-')) [
  | inl dash ↦ ground (arith, dash, rw dash at h, pieces-lack s)
  | inr other ↦ ground (arith, push-pieces c (split b'-' s) (rw other at h), pieces-lack s)
]

is_pair-pieces : (ps : List String) → is_pair ps ≡ true → all_pieces ps ≡ true
unfolding is_pair is_number
is_pair-pieces [] h = absurd (ground arith)
is_pair-pieces (a ∷ []) h = absurd (ground arith)
is_pair-pieces (a ∷ b ∷ []) h = ground (arith, h)
is_pair-pieces (a ∷ b ∷ c ∷ ps) h = absurd (ground arith)

empty-lacks : (s : String) → s ≡ "" → lacks b',' s ≡ true
empty-lacks s e = rw e refl

-- a range of the first three cases is its own and only piece
whole :
    (s : String) → (s == "" || is_number s || is_pair (split b'-' s)) ≡ true → split b',' s ≡ s ∷ []
unfolding is_number
whole s h = split-lacks b',' s (
    ground (
      arith,
      h,
      string_eq.beq_iff s "",
      empty-lacks s,
      digits-lack s,
      pieces-lack s,
      is_pair-pieces (split b'-' s),
    ))

-- what UnmarshalPortRange returns for a range that is accepted
abbrev pub Reads : String → Type 0
Reads s =
    (begin end : ℕ) × (unmarshal_port_range s ≡ ok (begin, end)) × (begin ≤ end) × (end ≤ 65535)

validate_sub_range-Reads : (s : String) → validate_sub_range s ≡ none → Reads s
unfolding validate_sub_range unmarshal_port_range parse_uint16
validate_sub_range-Reads s h = elim (Bool-cases (s == "")) [
  | inl empty ↦ (0, 0, rw empty refl, omega arith, omega arith)
  | inr some_text ↦ elim (Bool-cases (is_number s)) [
    | inl number ↦
        let fits : ltb 65535 (decimal 0 s) ≡ false = ground (arith, rw (some_text, number) at h) in
        (
          decimal 0 s,
          decimal 0 s,
          rw (some_text, number, fits) refl,
          omega arith,
          ground (arith, fits),
        )
    | inr not_number ↦ elim (Bool-cases (is_pair (split b'-' s))) [
      | inr malformed ↦ absurd (ground (arith, rw (some_text, not_number, malformed) at h))
      | inl pair ↦
          let begin = decimal 0 (first_text (split b'-' s)) in
          let end = decimal 0 (second_text (split b'-' s)) in
          let accepted = rw (some_text, not_number, pair) at h in
          let small : ltb 65535 begin ≡ false = ground (arith, accepted) in
          let small' : ltb 65535 end ≡ false = ground (arith, accepted) in
          let order : ltb end begin ≡ false = ground (arith, accepted, small, small') in
          (
            begin,
            end,
            rw (some_text, not_number, pair, small, small', order) refl,
            ground (arith, order),
            ground (arith, small'),
          )
    ]
  ]
]

validate_sub_ranges-Reads : (ps : List String) → validate_sub_ranges ps ≡ none → All Reads ps
unfolding validate_sub_ranges
validate_sub_ranges-Reads [] h = tt
validate_sub_ranges-Reads (p ∷ ps) h = elim (Option-cases (validate_sub_range p)) [
  | inl accepted ↦
      (validate_sub_range-Reads p accepted, validate_sub_ranges-Reads ps (rw accepted at h))
  | inr (e, refused) ↦ absurd (ground (arith, rw refused at h))
]

-- Every piece between commas of a port range that validatePortRange accepts is one that
-- UnmarshalPortRange reads, as numbers begin ≤ end ≤ 65535.
pub validate_port_range-Reads :
    (range : String) → validate_port_range range ≡ none → All Reads (split b',' range)
unfolding validate_port_range
validate_port_range-Reads range h =
    elim (Bool-cases (range == "" || is_number range || is_pair (split b'-' range))) [
      | inl simple ↦ rw (whole range simple) (validate_sub_range-Reads range (rw simple at h), tt)
      | inr listed ↦ elim (Bool-cases (is_multiple (split b',' range))) [
        | inl multiple ↦ validate_sub_ranges-Reads (split b',' range) (rw (listed, multiple) at h)
        | inr unsupported ↦ absurd (ground (arith, rw (listed, unsupported) at h))
      ]
    ]

sub_ranges-first :
    (protocol p : String) (ps : List String) (t : Tables) (begin end : ℕ)
    → unmarshal_port_range p ≡ ok (begin, end)
    → sub_ranges protocol (p ∷ ps) t ≡ sub_ranges protocol ps (mark_tables protocol begin end t)
unfolding sub_ranges
sub_ranges-first protocol p ps t begin end read = rw (sub_ranges, read) refl

sub_ranges-read :
    (protocol : String) (ps : List String) (t : Tables)
    → All Reads ps
    → (u : Tables) × (sub_ranges protocol ps t ≡ ok u)
unfolding sub_ranges
sub_ranges-read protocol [] t h = (t, refl)
sub_ranges-read protocol (p ∷ ps) t h =
    let (begin, end, read, _, _) = h.0 in
    let (u, rest) = sub_ranges-read protocol ps (mark_tables protocol begin end t) h.1 in
    (u, sub_ranges-first protocol p ps t begin end read ∙ rest)

flatten_port-accepted :
    (port : SecurityPolicyPort) (t : Tables)
    → validate_port port ≡ none
    → (u : Tables) × (flatten_port port t ≡ ok u)
unfolding flatten_port validate_port
flatten_port-accepted port t h = elim (Bool-cases (port.protocol == protocol_icmp)) [
  | inl icmp ↦ (record t { has_icmp = true }, rw icmp refl)
  | inr other ↦ elim (Bool-cases (port.type == port_type_name)) [
    | inl name ↦ (
      record t {
        rule_port_list = t.rule_port_list ++ name_ports port.protocol (split b',' port.port_range);
      },
      rw (other, name) refl,
    )
    | inr number ↦
        let (u, read) =
          sub_ranges-read port.protocol (split b',' port.port_range) t
            (validate_port_range-Reads port.port_range (rw number at h)) in
        (u, rw (other, number) read)
  ]
]

flatten_loop-accepted :
    (ports : List SecurityPolicyPort) (t : Tables)
    → validate_ports ports ≡ none
    → (u : Tables) × (flatten_loop ports t ≡ ok u)
unfolding flatten_loop validate_ports
flatten_loop-accepted [] t h = (t, refl)
flatten_loop-accepted (p ∷ ps) t h = elim (Option-cases (validate_port p)) [
  | inl accepted ↦
      let (u, first) = flatten_port-accepted p t accepted in
      let (v, rest) = flatten_loop-accepted ps u (rw accepted at h) in (v, rw first rest)
  | inr (e, refused) ↦ absurd (ground (arith, rw refused at h))
]

-- If the webhook accepts all ports of a rule, FlattenPorts of the agent returns RulePorts for them
-- and no error.
pub flatten_ports-accepted :
    (ports : List SecurityPolicyPort)
    → validate_ports ports ≡ none
    → (rules : List RulePort) × (flatten_ports ports ≡ ok rules)
unfolding flatten_ports
flatten_ports-accepted [] h = (_, refl)
flatten_ports-accepted (p ∷ ps) h =
    let (t, done) = flatten_loop-accepted (p ∷ ps) empty_tables h in
    let (rules, returned) = collect-total t in (rules, rw done returned)
