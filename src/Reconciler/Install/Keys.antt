-- ===== src/Reconciler/Install/Keys.antt =====
-- The ID under which a generated rule is installed: generateRule of
-- pkg/agent/controller/policy/cache/policy_cache.go and flowKeyFromRuleName.
use Prim.Native.Char.{code}
use Prim.Native.String.append
use Prim.Native.String.{◌++◌ as then_text}
use everoute.Common.{
  ℕ, zero, suc, ◌≡◌, refl, ap, ◌∙◌, String, true, false, List, [], ◌∷◌, ◌++◌, ◌==◌, nat_eq, arith,
  Bool-cases, inl, inr, ◌%◌,
}
use everoute.Text.{split, text_length}
use everoute.Cache.Rule.{
  Env, CompleteRule, PolicyRule, generate_flow_key, hash_name, take_text, rune_text, char_at,
  allow_runes,
}
use everoute.Cache.Rule.Generate.{Sound}
use everoute.Webhook.PortRanges.{lacks, split-lacks}
use everoute.Reconciler.Install.{flow_key_from_rule_name, last_key}

char_at-lacks : (i : ℕ) (s : String) → lacks b'-' s ≡ true → (code (char_at i s) == b'-') ≡ false
unfolding char_at
char_at-lacks i String.[] h = refl
char_at-lacks zero (String.◌∷◌ c s) h = ground (arith, h)
char_at-lacks (suc i) (String.◌∷◌ c s) h = char_at-lacks i s (ground (arith, h))

rune_text-lacks : (bs : List ℕ) → lacks b'-' (rune_text bs) ≡ true
unfolding rune_text
rune_text-lacks [] = refl
rune_text-lacks (b ∷ bs) =
    rw (char_at-lacks (b % text_length allow_runes) allow_runes refl, rune_text-lacks bs) refl

take_text-lacks : (n : ℕ) (s : String) → lacks b'-' s ≡ true → lacks b'-' (take_text n s) ≡ true
unfolding take_text
take_text-lacks zero s h = refl
take_text-lacks (suc n) String.[] h = refl
take_text-lacks (suc n) (String.◌∷◌ c s) h = ground (arith, h, take_text-lacks n s)

hash_name-lacks : (n : ℕ) (bs : List ℕ) → lacks b'-' (hash_name n bs) ≡ true
unfolding hash_name
hash_name-lacks n bs = take_text-lacks n (rune_text bs) (rune_text-lacks bs)

last_key-last : (ps : List String) (k : String) → last_key (ps ++ k ∷ []) ≡ k
last_key-last [] k = refl
last_key-last (p ∷ []) k = refl
last_key-last (p ∷ p' ∷ ps) k = last_key-last (p' ∷ ps) k

-- The pieces of a text with a key after a separator end in the key.
split-key :
    (x k : String)
    → lacks b'-' k ≡ true
    → (p : String) × (ps : List String) × (split b'-' (then_text x (then_text "-" k))
        ≡ p ∷ (ps ++ k ∷ []))
unfolding split
split-key String.[] k h = (
  "",
  [],
  ap (split b'-')
        (append.nil (then_text "-" k) ∙ append.cons "-" "" k ∙ ap (String.◌∷◌ "-") (append.nil k))
      ∙ ap (◌∷◌ "") (split-lacks b'-' k h),
)
split-key (String.◌∷◌ c x) k h =
    let (p, ps, is) = split-key x k h in
    elim (Bool-cases (code c == b'-')) [
      | inl dash ↦
          ("", p ∷ ps, ap (split b'-') (append.cons c x (then_text "-" k)) ∙ rw (dash, is) refl)
      | inr other ↦ (
        String.◌∷◌ c p,
        ps,
        ap (split b'-') (append.cons c x (then_text "-" k)) ∙ rw (other, is) refl,
      )
    ]

-- The ID that the reconciler reads out of the name of a rule that the cache generates is its flow
-- key, whatever the ID of the complete rule has for dashes.
pub flow_key_from_rule_name-Sound :
    (env : Env) (rule : CompleteRule) (r : PolicyRule)
    → Sound env rule r
    → flow_key_from_rule_name r.name ≡ generate_flow_key env r
unfolding flow_key_from_rule_name generate_flow_key
flow_key_from_rule_name-Sound env rule r sound =
    let digest = env.digest (record r { name = ""; action = "" }) in
    let key = hash_name 32 digest in
    let (p, ps, is) = split-key rule.rule_id key (hash_name-lacks 32 digest) in
    ap (λ name. last_key (split b'-' name)) sound.name ∙ ap last_key is ∙ last_key-last (p ∷ ps) key
