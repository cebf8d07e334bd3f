-- ===== src/EndpointController/Keys.antt =====
-- The text of two names with a slash between them gives the first name back.
use Prim.Native.Char.{code}
use everoute.Common.{
  ◌≡◌, refl, sym, ap, ◌∙◌, String, Bool, true, ◌&&◌, not, if◌then◌else◌, ◌==◌, nat_eq, string_eq,
  arith, Bool-cases, inl, inr,
}
use everoute.EndpointController.{slashed, Iface, iface_key_func}

-- no character is a slash, as in the name of every Kubernetes object
abbrev pub no_slash : String → Bool
no_slash String.[] = true
no_slash (String.◌∷◌ c s) = not (code c == b'/') && no_slash s

first_part : String → String
first_part String.[] = ""
first_part (String.◌∷◌ c s) =
    let rest = first_part s in if code c == b'/' then "" else String.◌∷◌ c rest

first_part-slashed : (a b : String) → no_slash a ≡ true → first_part (slashed a b) ≡ a
unfolding first_part slashed
first_part-slashed String.[] b h = refl
first_part-slashed (String.◌∷◌ c a) b h = elim (Bool-cases (code c == b'/')) [
  | inl slash ↦ absurd (ground (arith, h, slash))
  | inr other ↦ rw other (ap (String.◌∷◌ c) (first_part-slashed a b (ground (arith, h))))
]

-- interfaces with one key are at one agent
pub iface_key_func-agent :
    (i j : Iface)
    → no_slash i.agent_name ≡ true
    → no_slash j.agent_name ≡ true
    → (iface_key_func i == iface_key_func j) ≡ true
    → i.agent_name ≡ j.agent_name
unfolding iface_key_func
iface_key_func-agent i j h k same =
    sym (first_part-slashed i.agent_name i.name h)
    ∙ ap first_part ((string_eq.beq_iff (iface_key_func i) (iface_key_func j)).0 same)
    ∙ first_part-slashed j.agent_name j.name k
