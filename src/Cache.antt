-- ===== src/Cache.antt =====
-- The caches of pkg/agent/controller/policy/cache: the items of IP blocks (rule.go), and the
-- helpers of helper.go that the caches share.
pub mod Group
pub mod Rule
pub mod Members
use Prim.Native.Char.{Char, char, IsScalar}
use Prim.Native.Nat.{compare, Ordering}
use Prim.Native.String.{◌++◌}
use everoute.Common.{
  ℕ, ◌+◌, ◌-◌, ◌^◌, ◌%◌, ◌≡◌, refl, String, Bool, true, false, ◌&&◌, ◌||◌, Option, none, some, List,
  [], ◌∷◌, fold, ltb, leb, ◌==◌, nat_eq, string_eq, if◌then◌else◌,
}
use everoute.Common.Dict.{Dict, lookup, insert, values}
use everoute.Common.Set.{insert_all}
use everoute.Api.{NamedPort, GroupMember}
use everoute.Text.{split, all_digits, text_length, decimal}

-- string(r) of an int32: a surrogate, or a number past the last character, becomes U+FFFD
abbrev replacement : Char
replacement = char 0xFFFD tt

-- the numbers above the surrogates
high_rune :
    (n : ℕ) (o p : Ordering)
    → compare n 55296 ≡ Ordering.gt
    → compare 57343 n ≡ o
    → compare n 1114112 ≡ p
    → Char
high_rune n Ordering.lt Ordering.lt e f g = char n (rw (e, f, g, IsScalar) tt)
high_rune n o p e f g = replacement

low_rune : (n : ℕ) (o : Ordering) → compare n 55296 ≡ o → Char
low_rune n Ordering.lt e = char n (rw (e, IsScalar) tt)
low_rune n Ordering.eq e = replacement
low_rune n Ordering.gt e = high_rune n (compare 57343 n) (compare n 1114112) e refl refl

unfoldable pub rune : ℕ → String
unfolding high_rune low_rune
rune n = String.◌∷◌ (low_rune n (compare n 55296) refl) ""

-- NamedPort.ToString
unfoldable pub port_to_string : NamedPort → String
unfolding rune
port_to_string p = p.name ++ "-" ++ rune p.port ++ "-" ++ p.protocol

-- The agents that have the address, the count of policies that name it, and its named ports. The
-- count is never negative.
pub record IpBlockItem : Type 0 where
  pub agent_ref : List String
  pub static_count : ℕ
  pub ports : List NamedPort

abbrev pub new_ip_block_item : IpBlockItem
new_ip_block_item = record { agent_ref = []; static_count = 0; ports = [] }

-- map[string]*IPBlockItem: an item may be nil
abbrev pub Blocks : Type 0
Blocks = Dict String (Option IpBlockItem)

abbrev pub port_map : Dict String NamedPort → List NamedPort → Dict String NamedPort
port_map m ports = fold (λ d p. insert (port_to_string p) p d) m ports

unfoldable pub append_ip_block_ports : List NamedPort → List NamedPort → List NamedPort
unfolding port_to_string
append_ip_block_ports dst src = values (port_map (port_map [] dst) src)

-- (([1]?\d)?\d|2[0-4]\d|25[0-5])
unfoldable pub is_octet : String → Bool
is_octet s =
    all_digits s
    && ((leb 1 (text_length s) && leb (text_length s) 2)
        || (text_length s == 3 && leb 100 (decimal 0 s) && leb (decimal 0 s) 255))

unfoldable pub is_dotted : List String → Bool
unfolding is_octet
is_dotted (a ∷ b ∷ c ∷ d ∷ []) = is_octet a && is_octet b && is_octet c && is_octet d
is_dotted _ = false

unfoldable pub get_ip_cidr : String → String
unfolding is_dotted
get_ip_cidr ip = if is_dotted (split b'.' ip) then ip ++ "/32" else ip ++ "/128"

-- int32, as its bit pattern
abbrev pub i32_mod : ℕ
i32_mod = 2 ^ 32

unfoldable pub next_revision : ℕ → ℕ
next_revision r = (r + 1) % i32_mod

-- the signed comparison
unfoldable pub revision_lt : ℕ → ℕ → Bool
revision_lt a b = ltb ((a + 2 ^ 31) % i32_mod) ((b + 2 ^ 31) % i32_mod)

-- a map of items that holds no nil
abbrev pub Items : Type 0
Items = Dict String IpBlockItem

abbrev pub item_or_new : Option IpBlockItem → IpBlockItem
item_or_new none = new_ip_block_item
item_or_new (some item) = item

-- One address of a member enters a map: its item is made if there is none, and is given the agents
-- and the named ports of the member.
unfoldable pub add_address : List String → List NamedPort → Items → String → Items
add_address agents ports items ip =
    let item = item_or_new (lookup (get_ip_cidr ip) items) in
    insert (get_ip_cidr ip)
      (record item {
        agent_ref = insert_all item.agent_ref agents;
        ports = append_ip_block_ports item.ports ports;
      })
      items

unfoldable pub add_member : Items → GroupMember → Items
unfolding add_address
add_member items m = fold (add_address m.endpoint_agent m.ports) items m.ips
