-- ===== src/EndpointController/Cleaner/Expired.antt =====
-- Which addresses expire, and from which interfaces they are taken.
use everoute.Common.{
  ℕ, ◌+◌, ◌≡◌, refl, sym, ap, ◌∙◌, String, Bool, true, false, Option, none, some, List, [], ◌∷◌,
  ◌++◌, fold, ltb, ◌==◌, string_eq, arith, if◌then◌else◌,
}
use everoute.Common.Dict.{Dict, lookup, delete, IsDistinct, lookup-insert, lookup-delete}
use everoute.Common.Set.{has}
use everoute.Api.{OvsInterface}
use everoute.Labels.{is_nil}
use everoute.EndpointController.{Iface, Indexer}
use everoute.EndpointController.Cleaner.{
  get_endpoint_iface_id, expired_among, compute_interface_expired_ips, put_expired, delete_all_ips,
  take_expired, expired_map,
}

-- whether the address was learned so long before the report that it ends
abbrev pub is_expired : ℕ → ℕ → Option ℕ → Bool
is_expired timeout agent_time none = false
is_expired timeout agent_time (some t) = ltb (t + timeout) agent_time

expired_among-has :
    (timeout agent_time : ℕ) (m : Dict String ℕ) (ip : String)
    → IsDistinct m
    → has ip (expired_among timeout agent_time m) ≡ is_expired timeout agent_time (lookup ip m)
unfolding expired_among has lookup
expired_among-has timeout agent_time [] ip d = refl
expired_among-has timeout agent_time ((k, t) ∷ rest) ip d =
    ground (arith, d.0, expired_among-has timeout agent_time rest ip d.1, string_eq.beq_iff k ip)

lookup-delete_all_ips :
    (m : Dict String ℕ) (ips : List String) (ip : String)
    → lookup ip (delete_all_ips m ips) ≡ (if has ip ips then none else lookup ip m)
unfolding has
lookup-delete_all_ips m [] ip = refl
lookup-delete_all_ips m (i ∷ ips) ip =
    ground (arith, lookup-delete_all_ips (delete i m) ips ip, lookup-delete i ip m)

take_shape :
    (expired : Dict String (List String)) (i : OvsInterface) (ips : List String)
    → (get_endpoint_iface_id i.external_ids == "") ≡ false
    → lookup (get_endpoint_iface_id i.external_ids) expired ≡ some ips
    → (take_expired expired i).0.ip_map ≡ delete_all_ips i.ip_map ips
unfolding take_expired
take_shape expired i ips named found = rw (named, found) refl

not_nil : (ip : String) (ips : List String) → has ip ips ≡ true → is_nil ips ≡ false
unfolding has
not_nil ip [] h = absurd (ground (arith, h))
not_nil ip (i ∷ ips) h = refl

fold-last :
    {A : Type 0} {S : Type 0} (f : S → A → S) (s : S) (xs : List A) (x : A)
    → fold f s (xs ++ x ∷ []) ≡ f (fold f s xs) x
fold-last f s [] x = refl
fold-last f s (y ∷ ys) x = fold-last f (f s y) ys x

-- the map holds the addresses of the last interface with an identifier
last_put :
    (timeout : ℕ) (m : Dict String (List String)) (stale : Iface) (ip : String)
    → (get_endpoint_iface_id stale.external_ids == "") ≡ false
    → has ip (compute_interface_expired_ips timeout stale) ≡ true
    → lookup (get_endpoint_iface_id stale.external_ids) (put_expired timeout m stale)
      ≡ some (compute_interface_expired_ips timeout stale)
unfolding put_expired
last_put timeout m stale ip named there =
    let id = get_endpoint_iface_id stale.external_ids in
    let ips = compute_interface_expired_ips timeout stale in
    rw (named, not_nil ip ips there)
      (lookup-insert id id ips m ∙ ground (arith, string_eq.beq_iff id id))

-- If the interface that the cache lists last has an identifier and an address that is expired
-- there, every interface with the identifier in a report loses the address, however recently it
-- was learned there.
pub fresh_address_lost :
    (cache : Indexer) (s : cache.State) (timeout : ℕ) (earlier : List Iface) (stale : Iface)
    (i : OvsInterface) (ip : String)
    → cache.list s ≡ earlier ++ stale ∷ []
    → IsDistinct stale.ip_last_update_time_map
    → is_expired timeout stale.agent_time (lookup ip stale.ip_last_update_time_map) ≡ true
    → (get_endpoint_iface_id i.external_ids == "") ≡ false
    → get_endpoint_iface_id stale.external_ids ≡ get_endpoint_iface_id i.external_ids
    → lookup ip (take_expired (expired_map cache timeout s) i).0.ip_map ≡ none
unfolding expired_map compute_interface_expired_ips
fresh_address_lost cache s timeout earlier stale i ip listed distinct old named same =
    let m = fold (put_expired timeout) [] earlier in
    let ips = compute_interface_expired_ips timeout stale in
    let there : has ip ips ≡ true =
      expired_among-has timeout stale.agent_time stale.ip_last_update_time_map ip distinct ∙ old in
    let shape : expired_map cache timeout s ≡ put_expired timeout m stale =
      ap (fold (put_expired timeout) []) listed
      ∙ fold-last (put_expired timeout) [] earlier stale in
    let found : lookup (get_endpoint_iface_id i.external_ids) (expired_map cache timeout s)
        ≡ some ips =
      ap (λ k. lookup k (expired_map cache timeout s)) (sym same)
      ∙ ap (lookup (get_endpoint_iface_id stale.external_ids)) shape
      ∙ last_put timeout m stale ip (ap (λ k. k == "") same ∙ named) there in
    ap (lookup ip) (take_shape (expired_map cache timeout s) i ips named found)
    ∙ lookup-delete_all_ips i.ip_map ips ip
    ∙ ground (arith, there)
