-- ===== src/Esim/Waiting.antt =====
-- Theorems about `waitForEndpoint` and `endpointById`.
use openwrt_apn_autoconfig.Prelude.{
  Bool, and-eq-true, select, lookup, ℕ, zero, suc, ◌+◌, ◌≤◌, String, ◌≡◌, refl, true, false, ◌&&◌,
  none, some, str_eq, arith, sole-All, All-select_self,
}
use openwrt_apn_autoconfig.Esim.{endpoints_of, EsimPage, endpoint_by_id, reload_esim_inventory}
use openwrt_apn_autoconfig.Json.{Value, get, is_str}
use openwrt_apn_autoconfig.Wrapper.{Answer}
use openwrt_apn_autoconfig.Esim.Settling.{wait_for_endpoint, sought}

module _ (ask : ℕ → Answer) (modem_id endpoint_id : String) where
  -- The wait reads the inventory at least once, and at most once more than the attempts that it is given.
  pub wait_for_endpoint-reads :
      (n attempts : ℕ) (s : EsimPage)
      → let reads = (wait_for_endpoint ask n modem_id endpoint_id attempts s).reads in
        (1 ≤ reads) × (reads ≤ attempts + 1)
  unfolding wait_for_endpoint
  wait_for_endpoint-reads n zero s = (omega arith, omega arith)
  wait_for_endpoint-reads n (suc attempts) s =
      let t = reload_esim_inventory modem_id (ask n) s in
      ground (arith, wait_for_endpoint-reads (n + 1) attempts t)

  -- Without an endpoint to wait for the inventory is read once.
  pub wait_for_endpoint-nobody :
      (n attempts : ℕ) (s : EsimPage)
      → str_eq endpoint_id "" ≡ true
      → ((wait_for_endpoint ask n modem_id endpoint_id attempts s).reads ≡ 1)
        × ((wait_for_endpoint ask n modem_id endpoint_id attempts s).endpoint ≡ none)
  unfolding wait_for_endpoint
  wait_for_endpoint-nobody n zero s h = (refl, rw h)
  wait_for_endpoint-nobody n (suc attempts) s h = ground arith

  -- What the wait comes to is what the last inventory that it read holds.
  pub wait_for_endpoint-last :
      (n attempts : ℕ) (s : EsimPage)
      → let w = wait_for_endpoint ask n modem_id endpoint_id attempts s in
        w.endpoint ≡ sought modem_id endpoint_id w.page
  unfolding wait_for_endpoint
  wait_for_endpoint-last n zero s = refl
  wait_for_endpoint-last n (suc attempts) s =
      let t = reload_esim_inventory modem_id (ask n) s in
      ground (arith, wait_for_endpoint-last (n + 1) attempts t)

  -- If the wait for an endpoint with an identifier ends without the endpoint, then the inventory was read once
  -- more than the attempts that were given.
  pub wait_for_endpoint-exhausted :
      (n attempts : ℕ) (s : EsimPage)
      → str_eq endpoint_id "" ≡ false
      → (wait_for_endpoint ask n modem_id endpoint_id attempts s).endpoint ≡ none
      → (wait_for_endpoint ask n modem_id endpoint_id attempts s).reads ≡ attempts + 1
  unfolding wait_for_endpoint
  wait_for_endpoint-exhausted n zero s h e = refl
  wait_for_endpoint-exhausted n (suc attempts) s h e =
      let t = reload_esim_inventory modem_id (ask n) s in
      ground (arith, wait_for_endpoint-exhausted (n + 1) attempts t)

-- An endpoint that is found carries both identifiers.
pub endpoint_by_id-matches :
    (modem_id endpoint_id : String) (s : EsimPage) {e : Value}
    → endpoint_by_id modem_id endpoint_id s ≡ some e
    → (is_str (get e "modem_id") modem_id ≡ true)
      × (is_str (get e "endpoint_id") endpoint_id ≡ true)
unfolding endpoint_by_id
endpoint_by_id-matches modem_id endpoint_id s {e} h =
    let here : Value → Bool =
      λ x. is_str (get x "modem_id") modem_id && is_str (get x "endpoint_id") endpoint_id in
    let listed = endpoints_of (lookup modem_id s.inventory) in
    let both = sole-All (λ x. here x ≡ true) (select here listed) h (All-select_self here listed) in
    and-eq-true (is_str (get e "modem_id") modem_id) (is_str (get e "endpoint_id") endpoint_id) both
