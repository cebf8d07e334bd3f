-- ===== src/Tests/LabelTests.antt =====
-- Label sets and selectors at concrete inputs (pkg/labels).
use everoute.Common.{◌≡◌, refl, String, true, false, some, List, [], ◌∷◌, ok, string_eq, arith}
use everoute.Common.Dict.{Dict, lookup, insert}
use everoute.Common.Set.{insert_all, is_superset, add, has}
use everoute.Api.{Selector, op_exists}
use everoute.Labels.{LabelSet, as_set, matches_selector}
use everoute.Labels.Growth.{Within}

abbrev tier : Dict String String
tier = ("tier", "web") ∷ []

abbrev zones : Dict String (List String)
zones = ("zone", "a" ∷ "b" ∷ []) ∷ []

abbrev both : LabelSet
both = ("tier", "web" ∷ []) ∷ ("zone", "b" ∷ "a" ∷ []) ∷ []

both_made : as_set tier zones ≡ ok both
unfolding as_set insert insert_all add has lookup
both_made = refl

abbrev selector : Selector
selector = record {
  match_labels = ("tier", "web") ∷ [];
  match_expressions = record { key = "tier"; operator = op_exists; values = [] } ∷ [];
  extend_match_labels = [];
  match_nothing = false;
}

abbrev web_only : LabelSet
web_only = ("tier", "web" ∷ []) ∷ []

web_only-Within : Within web_only both
unfolding lookup has
web_only-Within key value h = ground (arith, h)

web_only_matches : matches_selector (some selector) web_only ≡ true
unfolding matches_selector lookup has is_superset
web_only_matches = refl
