-- ===== src/Datapath/Rounds.antt =====
-- The number of a restart: getRoundInfo and persistentRoundInfo of
-- pkg/agent/datapath/multiBridgeDatapath.go. The external IDs of a bridge are read from OVSDB.
use Prim.Native.String.{String}
use everoute.Common.{
  ℕ, zero, suc, ◌+◌, ◌^◌, ◌≤◌, ◌<◌, ◌≡◌, ◌≢◌, refl, ap, Bool, true, false, ◌&&◌, Option, none, some,
  Result, ok, err, ◌==◌, nat_eq, string_eq, ltb, leb, if◌then◌else◌, arith, Bool-cases, inl, inr,
  beq_refl,
}
use everoute.Common.Dict.{Dict, lookup, insert, lookup-insert}
use everoute.Text.{all_digits, text_length, decimal, digits_text}

pub record RoundInfo : Type 0 where
  pub previous_round_num : ℕ
  pub cur_round_num : ℕ

abbrev pub max_round_num : ℕ
max_round_num = 15

-- datapathRestartRound
abbrev pub datapath_restart_round : String
datapath_restart_round = "datapathRestartRound"

-- strconv.ParseUint(s, 10, 64); `none` is an error
unfoldable pub parse_uint64 : String → Option ℕ
unfolding all_digits text_length decimal
parse_uint64 s =
    if all_digits s && leb 1 (text_length s) && ltb (decimal 0 s) (2 ^ 64)
    then some (decimal 0 s)
    else none

pub data RoundError : Type 0 where
  no_external_ids : RoundError
  bad_format : String → RoundError

-- from the number that is stored
unfoldable pub next_round : ℕ → RoundInfo
next_round num = record {
  previous_round_num = num;
  cur_round_num = if leb max_round_num num then 1 else num + 1;
}

unfoldable pub parsed_round : String → Result RoundError RoundInfo
unfolding next_round parse_uint64
parsed_round text = elim (parse_uint64 text) [
  | none ↦ err (bad_format text)
  | some num ↦ ok (next_round num)
]

-- An empty map has no number either.
unfoldable pub get_round_info : Option (Dict String String) → Result RoundError RoundInfo
unfolding parsed_round
get_round_info none = err no_external_ids
get_round_info (some ids) = elim (lookup datapath_restart_round ids) [
  | none ↦ ok (record { previous_round_num = 0; cur_round_num = 1 })
  | some text ↦ parsed_round text
]

-- fmt.Sprint of a uint64, whose digits are at most twenty
unfoldable pub persistent_round_info : ℕ → Dict String String → Dict String String
unfolding digits_text
persistent_round_info cur ids = insert datapath_restart_round (digits_text 20 cur "") ids

-- the numbers up to MaxRoundNum are read as they are written
abbrev is_number : ℕ → Option ℕ → Bool
is_number n none = false
is_number n (some k) = k == n

is_number-some : (n : ℕ) (o : Option ℕ) → is_number n o ≡ true → o ≡ some n
is_number-some n none h = ground (arith, h)
is_number-some n (some k) h = ap some ((nat_eq.beq_iff k n).0 h)

reads_back : ℕ → Bool
unfolding parse_uint64 digits_text
reads_back n = is_number n (parse_uint64 (digits_text 20 n ""))

all_below : ℕ → Bool
unfolding reads_back
all_below zero = true
all_below (suc n) = reads_back n && all_below n

all_below-reads_back : (k n : ℕ) → all_below k ≡ true → n < k → reads_back n ≡ true
unfolding all_below
all_below-reads_back zero n h lt = absurd (omega arith)
all_below-reads_back (suc k) n h lt = elim (Bool-cases (n == k)) [
  | inl same ↦ rw ((nat_eq.beq_iff n k).0 same) (ground (arith, h))
  | inr other ↦ all_below-reads_back k n (ground (arith, h)) (ground (arith, other, lt))
]

table : all_below 16 ≡ true
unfolding all_below
table = refl

read_back : (n : ℕ) → n < 16 → parse_uint64 (digits_text 20 n "") ≡ some n
unfolding reads_back
read_back n h =
    is_number-some n (parse_uint64 (digits_text 20 n "")) (all_below-reads_back 16 n table h)

round_bounds :
    (ids : Dict String String) (info : RoundInfo)
    → get_round_info (some ids) ≡ ok info
    → (1 ≤ info.cur_round_num)
      × (info.cur_round_num ≤ max_round_num)
      × (info.cur_round_num ≢ info.previous_round_num)
unfolding get_round_info parsed_round next_round
round_bounds ids info h = ground (arith, h)

-- The number of a restart is from 1 to MaxRoundNum and differs from that of the restart before; and
-- once it is stored, the next restart reads it as that of the restart before.
pub get_round_info-restart :
    (ids : Dict String String) (info : RoundInfo)
    → get_round_info (some ids) ≡ ok info
    → (1 ≤ info.cur_round_num)
      × (info.cur_round_num ≤ max_round_num)
      × (info.cur_round_num ≢ info.previous_round_num)
      × ((next : RoundInfo) × (get_round_info (some (persistent_round_info info.cur_round_num ids))
            ≡ ok next)
          × (next.previous_round_num ≡ info.cur_round_num))
unfolding get_round_info parsed_round persistent_round_info next_round
get_round_info-restart ids info h =
    let (low, high, differs) = round_bounds ids info h in
    let cur = info.cur_round_num in
    (
      low,
      high,
      differs,
      (
        next_round cur,
        ground (
          arith,
          lookup-insert datapath_restart_round datapath_restart_round (digits_text 20 cur "") ids,
          beq_refl datapath_restart_round,
          read_back cur (omega arith),
        ),
        refl,
      ),
    )
