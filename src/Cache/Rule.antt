-- ===== src/Cache/Rule.antt =====
-- CompleteRule of pkg/agent/controller/policy/cache/rule.go, with HashName of helper.go. The digest
-- of a rule, sha256.Sum256 of its JSON text, is a parameter: a list of bytes. `none` as the result
-- of a method that writes to items is a panic, a write through a nil item.
pub mod Count
pub mod Generate
pub mod Patch
pub mod Safe
use Prim.Native.Char.{Char, char}
use Prim.Native.Nat.{pred}
use Prim.Native.String.{◌++◌ as text_append}
use everoute.Common.{
  ℕ, zero, suc, ◌+◌, ◌-◌, ◌%◌, String, Bool, true, false, ◌&&◌, ◌||◌, not, Option, none, some, List,
  [], ◌∷◌, ◌++◌, gather, length, ltb, ◌==◌, nat_eq, string_eq, if◌then◌else◌,
}
use everoute.Common.Dict.{Dict, lookup, insert, delete, keys}
use everoute.Common.Set.{has, insert_all, delete_all}
use everoute.Api.{NamedPort}
use everoute.Text.{text_length}
use everoute.Ports.{RulePort, zero_port, u16_mod}
use everoute.Cache.{IpBlockItem, Blocks, new_ip_block_item, append_ip_block_ports, next_revision}

abbrev pub rule_type_default : String
rule_type_default = "DefaultRule"

abbrev pub rule_type_normal : String
rule_type_normal = "NormalRule"

abbrev pub rule_action_allow : String
rule_action_allow = "Allow"

abbrev pub rule_action_drop : String
rule_action_drop = "Drop"

abbrev pub rule_direction_in : String
rule_direction_in = "Ingress"

abbrev pub rule_direction_out : String
rule_direction_out = "Egress"

pub record PolicyRule : Type 0 where
  pub name : String
  pub action : String
  pub direction : String
  pub rule_type : String
  pub tier : String
  pub enforcement_mode : String
  pub src_ip_addr : String
  pub dst_ip_addr : String
  pub ip_protocol : String
  pub src_port : ℕ
  pub dst_port : ℕ
  pub src_port_mask : ℕ
  pub dst_port_mask : ℕ

pub record CompleteRule : Type 0 where
  pub rule_id : String
  pub tier : String
  pub enforcement_mode : String
  pub action : String
  pub direction : String
  pub symmetric_mode : Bool
  pub default_policy_rule : Bool
  pub src_groups : Dict String ℕ
  pub dst_groups : Dict String ℕ
  pub src_ip_blocks : Blocks
  pub dst_ip_blocks : Blocks
  pub ports : List RulePort

-- a patch with the maps as the rules read them
pub record RulePatch : Type 0 where
  pub group_name : String
  pub revision : ℕ
  pub add : Blocks
  pub del : Blocks

unfoldable pub has_local_rule : String → Option IpBlockItem → Bool
has_local_rule agent none = true
has_local_rule agent (some item) =
    if ltb 0 item.static_count then true else length item.agent_ref == 0 || has agent item.agent_ref

unfoldable pub resolve_dst_port : RulePort → List NamedPort → List RulePort
resolve_dst_port port named_ports =
    if port.dst_port_name == ""
    then []
    else gather
        (λ n.
          if n.name == port.dst_port_name && n.protocol == port.protocol
          then record zero_port {
            protocol = port.protocol;
            dst_port = n.port % u16_mod;
            dst_port_mask = 0xffff;
          }
            ∷ []
          else [])
        named_ports

-- allowRunes[i]
abbrev pub allow_runes : String
allow_runes = "abcdefghijklmnopqrstuvwxyz1234567890"

unfoldable pub char_at : ℕ → String → Char
char_at i String.[] = char 0 tt
char_at zero (String.◌∷◌ c s) = c
char_at (suc i) (String.◌∷◌ c s) = char_at i s

unfoldable pub take_text : ℕ → String → String
take_text zero s = ""
take_text (suc n) String.[] = ""
take_text (suc n) (String.◌∷◌ c s) = String.◌∷◌ c (take_text n s)

unfoldable pub rune_text : List ℕ → String
unfolding char_at
rune_text [] = ""
rune_text (b ∷ bs) = String.◌∷◌ (char_at (b % text_length allow_runes) allow_runes) (rune_text bs)

unfoldable pub hash_name : ℕ → List ℕ → String
unfolding take_text rune_text
hash_name length digest = take_text length (rune_text digest)

-- what the code takes from its environment: the digest of a rule, and utils.CurrentAgentName()
pub record Env : Type 0 where
  pub digest : PolicyRule → List ℕ
  pub current_agent : String

unfoldable pub generate_flow_key : Env → PolicyRule → String
unfolding hash_name
generate_flow_key env rule = hash_name 32 (env.digest (record rule { name = ""; action = "" }))

-- the rule without its name
unfoldable pub unnamed_rule : CompleteRule → String → String → String → RulePort → PolicyRule
unnamed_rule rule src dst direction port = record {
  name = "";
  action = rule.action;
  direction = direction;
  rule_type = if rule.default_policy_rule then rule_type_default else rule_type_normal;
  tier = rule.tier;
  enforcement_mode = rule.enforcement_mode;
  src_ip_addr = src;
  dst_ip_addr = dst;
  ip_protocol = port.protocol;
  src_port = port.src_port;
  dst_port = port.dst_port;
  src_port_mask = port.src_port_mask;
  dst_port_mask = port.dst_port_mask;
}

unfoldable pub generate_rule : Env → CompleteRule → String → String → String → RulePort → PolicyRule
unfolding generate_flow_key unnamed_rule
generate_rule env rule src dst direction port =
    let unnamed = unnamed_rule rule src dst direction port in
    record unnamed {
      name = text_append rule.rule_id (text_append "-" (generate_flow_key env unnamed));
    }

-- the ports of one port of the rule at a destination
unfoldable pub dst_ports : Option IpBlockItem → RulePort → List RulePort
unfolding resolve_dst_port
dst_ports dst_block port =
    if port.dst_port_name == ""
    then port ∷ []
    else elim dst_block [ none ↦ [] | some item ↦ resolve_dst_port port item.ports ]

-- if b { policyRuleList = append(policyRuleList, rule) }
abbrev pub append_if : Bool → PolicyRule → List PolicyRule
append_if b rule = if b then rule ∷ [] else []

-- the body of the innermost loop
unfoldable pub rules_of_port :
    Env
    → CompleteRule
    → String
    → Option IpBlockItem
    → String
    → Option IpBlockItem
    → RulePort
    → List PolicyRule
rules_of_port env rule src src_block dst dst_block port =
    let local_src = has_local_rule env.current_agent src_block in
    let local_dst = has_local_rule env.current_agent dst_block in
    if rule.symmetric_mode
    then append_if local_dst (generate_rule env rule src dst rule_direction_in port)
      ++ append_if local_src (generate_rule env rule src dst rule_direction_out port)
    else append_if
        (rule.direction == rule_direction_in && local_dst
          || rule.direction == rule_direction_out && local_src)
        (generate_rule env rule src dst rule.direction port)

-- the rules between a source and a destination
unfoldable pub rules_between :
    Env
    → CompleteRule
    → List RulePort
    → String × Option IpBlockItem
    → String × Option IpBlockItem
    → List PolicyRule
rules_between env rule ports (src, src_block) (dst, dst_block) =
    if not (src == "") && not (dst == "") && src == dst
    then []
    else gather
        (λ port.
          gather (rules_of_port env rule src src_block dst dst_block) (dst_ports dst_block port))
        ports

unfoldable pub generate_rule_list :
    Env → CompleteRule → Blocks → Blocks → List RulePort → List PolicyRule
generate_rule_list env rule src_ip_blocks dst_ip_blocks ports =
    gather (λ src. gather (rules_between env rule ports src) dst_ip_blocks) src_ip_blocks

unfoldable pub list_rules : Env → CompleteRule → List PolicyRule
unfolding generate_rule_list
list_rules env rule = generate_rule_list env rule rule.src_ip_blocks rule.dst_ip_blocks rule.ports

infixl 5 ◌>>=◌
abbrev pub ◌>>=◌ {ℓ κ} : {A : Type ℓ} {B : Type κ} → Option A → (A → Option B) → Option B
none >>= f = none
some a >>= f = f a

-- an item without the agents and the count of a deleted one; the count stops at 0
unfoldable pub reduce : IpBlockItem → Option IpBlockItem → IpBlockItem
reduce item none = item
reduce item (some del) = record item {
  static_count =
      if ltb item.static_count del.static_count then 0 else item.static_count - del.static_count;
  agent_ref = delete_all item.agent_ref del.agent_ref;
}

unfoldable pub extend : IpBlockItem → Option IpBlockItem → IpBlockItem
extend item none = item
extend item (some add) = record item {
  static_count = item.static_count + add.static_count;
  agent_ref = insert_all item.agent_ref add.agent_ref;
  ports = append_ip_block_ports item.ports add.ports;
}

abbrev pub is_unused : IpBlockItem → Bool
is_unused item = item.static_count == 0 && length item.agent_ref == 0

-- the body of the loop over `deled`
unfoldable pub del_block : Blocks → String → Option IpBlockItem → Option Blocks
unfolding reduce
del_block count ip del = elim (lookup ip count) [
  | none ↦ some count
  | some none ↦ none
  | some (some item) ↦ some (
      if is_unused (reduce item del)
      then delete ip count
      else insert ip (some (reduce item del)) count)
]

-- the body of the loop over `added`
unfoldable pub add_block : Blocks → String → Option IpBlockItem → Option Blocks
unfolding extend
add_block count ip add = elim (lookup ip count) [
  | none ↦ some (insert ip (some (extend new_ip_block_item add)) count)
  | some (some item) ↦ some (insert ip (some (extend item add)) count)
  | some none ↦ elim add [ none ↦ some count | some _ ↦ none ]
]

unfoldable pub del_blocks : Blocks → Blocks → Option Blocks
unfolding del_block
del_blocks count [] = some count
del_blocks count ((ip, del) ∷ rest) = del_block count ip del >>= λ c. del_blocks c rest

unfoldable pub add_blocks : Blocks → Blocks → Option Blocks
unfolding add_block
add_blocks count [] = some count
add_blocks count ((ip, add) ∷ rest) = add_block count ip add >>= λ c. add_blocks c rest

unfoldable pub apply_count_map : Blocks → Blocks → Blocks → Option Blocks
unfolding del_blocks add_blocks
apply_count_map count added deled = del_blocks count deled >>= λ c. add_blocks c added

-- revision, exist := groups[patch.GroupName]; exist && revision == patch.Revision
unfoldable pub applies : Dict String ℕ → RulePatch → Bool
applies groups patch = elim (lookup patch.group_name groups) [
  | none ↦ false
  | some revision ↦ revision == patch.revision
]

abbrev pub apply_if : Bool → Blocks → RulePatch → Option Blocks
apply_if b blocks patch = if b then apply_count_map blocks patch.add patch.del else some blocks

abbrev pub upgrade_if : Bool → Dict String ℕ → RulePatch → Dict String ℕ
upgrade_if b groups patch =
    if b then insert patch.group_name (next_revision patch.revision) groups else groups

unfoldable pub apply_patch : CompleteRule → RulePatch → Option CompleteRule
unfolding applies apply_count_map
apply_patch rule patch =
    apply_if (applies rule.src_groups patch) rule.src_ip_blocks patch >>= λ src.
    apply_if (applies rule.dst_groups patch) rule.dst_ip_blocks patch >>= λ dst. some (record rule {
      src_ip_blocks = src;
      src_groups = upgrade_if (applies rule.src_groups patch) rule.src_groups patch;
      dst_ip_blocks = dst;
      dst_groups = upgrade_if (applies rule.dst_groups patch) rule.dst_groups patch;
    })

abbrev pub rules_if : Bool → List PolicyRule → List PolicyRule
rules_if b rules = if b then rules else []

-- the new rules and the old ones
unfoldable pub get_patch_policy_rules :
    Env → CompleteRule → RulePatch → Option (List PolicyRule × List PolicyRule)
unfolding applies apply_count_map generate_rule_list
get_patch_policy_rules env rule patch =
    let in_src = applies rule.src_groups patch in
    let in_dst = applies rule.dst_groups patch in
    let between = λ (src dst : Blocks). generate_rule_list env rule src dst rule.ports in
    apply_if in_src rule.src_ip_blocks patch >>= λ src.
    apply_if in_dst rule.dst_ip_blocks patch >>= λ dst. some (
      rules_if in_src (between patch.add rule.dst_ip_blocks)
          ++ rules_if in_dst (between src patch.add),
      rules_if in_src (between patch.del rule.dst_ip_blocks)
          ++ rules_if in_dst (between src patch.del),
    )

-- groupIndexFunc: the groups of a rule, each once
unfoldable pub group_index : CompleteRule → List String
group_index rule = insert_all (keys rule.src_groups) (keys rule.dst_groups)
