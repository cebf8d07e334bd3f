-- ===== src/Datapath/Bridge.antt =====
-- Which calls of AddMicroSegmentRule of pkg/agent/datapath/policyBridge.go come to the end of the
-- function, with GetTierTable. The flow that NewFlow makes and its actions are ofctrl's. net.ParseCIDR
-- and net.ParseIP are a test of an address; their part of ParseIPAddrMaskString is a parameter.
use everoute.Common.{
  ℕ, ◌≡◌, refl, String, Bool, arith, true, false, ◌&&◌, ◌||◌, not, Option, none, some, ◌==◌, nat_eq,
  string_eq, if◌then◌else◌,
}
use everoute.Datapath.Rules.{EveroutePolicyRule, Place}

-- the tables of a policy bridge that rules use
pub data PolicyTable : Type 0 where
  egress_tier1 egress_tier2 egress_tier3 : PolicyTable
  ingress_tier1 ingress_tier2 ingress_tier3 : PolicyTable
  egress_tier2_monitor egress_tier3_monitor : PolicyTable
  ingress_tier2_monitor ingress_tier3_monitor : PolicyTable
  ct_commit : PolicyTable

-- the table and the next one; `none` inside stands for the nil tables of the branches that assign
-- none, and outside for an error
abbrev pub Tables : Type 0
Tables = Option (Option (PolicyTable × PolicyTable))

abbrev pub both : PolicyTable → PolicyTable → Tables
both table next = some (some (table, next))

-- the switch over the tiers, with the tables of the cases
abbrev pub of_tier : ℕ → Tables → Tables → Tables → Tables
of_tier tier tier1 tier2 tier3 =
    if tier == 50 then tier1 else if tier == 100 then tier2 else if tier == 150 then tier3 else none

-- and over the directions
abbrev pub of_direction : ℕ → Tables → Tables → Tables
of_direction direction out in_ =
    if direction == 0 then out else if direction == 1 then in_ else some none

unfoldable pub get_tier_table : Place → Tables
get_tier_table place =
    if place.mode == "work"
    then of_direction place.direction
        (of_tier place.tier (both egress_tier1 ct_commit) (both egress_tier2 ct_commit)
          (both egress_tier3 ct_commit))
        (of_tier place.tier (both ingress_tier1 ct_commit) (both ingress_tier2 ct_commit)
          (both ingress_tier3 ct_commit))
    else if place.mode == "monitor"
    then of_direction place.direction
        (of_tier place.tier (some none) (both egress_tier2_monitor egress_tier2)
          (both egress_tier3_monitor egress_tier3))
        (of_tier place.tier (some none) (both ingress_tier2_monitor ingress_tier2)
          (both ingress_tier3_monitor ingress_tier3))
    else none

-- an address that is given has to be one
abbrev pub is_address : (String → Bool) → String → Bool
is_address parses address = address == "" || parses address

-- the switch over the mode after NewFlow
abbrev pub has_actions : EveroutePolicyRule → Place → Bool
has_actions rule place =
    if place.mode == "monitor"
    then not (place.tier == 50)
    else if place.mode == "work"
    then rule.action == "allow" || rule.action == "deny"
    else true

abbrev has_table : Tables → Bool
has_table none = false
has_table (some none) = false
has_table (some (some tables)) = true

-- Neither an error of this function nor a nil table: with a nil table, NewFlow dereferences it.
unfoldable pub is_accepted : (String → Bool) → EveroutePolicyRule → Place → Bool
unfolding get_tier_table
is_accepted parses rule place =
    has_table (get_tier_table place)
    && is_address parses rule.dst_ip_addr
    && is_address parses rule.src_ip_addr
    && has_actions rule place

abbrev pub is_tier : ℕ → Bool
is_tier t = t == 50 || t == 100 || t == 150

get_tier_table_lem :
    (place : Place)
    → has_table (get_tier_table place) ≡ (
        (place.direction == 0 || place.direction == 1)
        && is_tier place.tier
        && (place.mode == "work" || place.mode == "monitor" && not (place.tier == 50)))
unfolding get_tier_table
get_tier_table_lem place = ground arith

table_there :
    (place : Place)
    → (place.direction == 0 || place.direction == 1) ≡ true
    → is_tier place.tier ≡ true
    → (place.mode == "work" || place.mode == "monitor" && not (place.tier == 50)) ≡ true
    → has_table (get_tier_table place) ≡ true
table_there place direction tier mode =
    ground (arith, get_tier_table_lem place, direction, tier, mode)

all_four : (a b c d : Bool) → a ≡ true → b ≡ true → c ≡ true → d ≡ true → (a && b && c && d) ≡ true
all_four a b c d p q r s = ground (arith, p, q, r, s)

not_both : (mode : String) → (mode == "monitor") ≡ true → (mode == "work") ≡ false
not_both mode h = rw ((string_eq.beq_iff mode "monitor").0 h) refl

-- A rule is accepted at a known direction and tier, in a known mode, but not at tier0 in the mode
-- that monitors.
pub is_accepted-known :
    (parses : String → Bool) (rule : EveroutePolicyRule) (place : Place)
    → (place.direction == 0 || place.direction == 1) ≡ true
    → is_tier place.tier ≡ true
    → (place.mode == "work" || place.mode == "monitor" && not (place.tier == 50)) ≡ true
    → (is_address parses rule.src_ip_addr && is_address parses rule.dst_ip_addr) ≡ true
    → (rule.action == "allow" || rule.action == "deny") ≡ true
    → is_accepted parses rule place ≡ true
unfolding is_accepted get_tier_table
is_accepted-known parses rule place direction tier mode addresses action =
    all_four (has_table (get_tier_table place)) (is_address parses rule.dst_ip_addr)
      (is_address parses rule.src_ip_addr) (has_actions rule place)
      (table_there place direction tier mode) (ground (arith, addresses))
      (ground (arith, addresses)) (ground (arith, mode, action, not_both place.mode))
