-- ===== src/UnitTests/Addresses.antt =====
-- src/logic.rs, `mod tests`: the client address and the chain before our edge.
use proxpulse_judge.Base.{
  Bool, true, false, ◌&&◌, ◌≡◌, refl, Option, none, some, List, [], ◌∷◌, String, codes, text_eq,
}
use proxpulse_judge.Host.Basic.{clean_host}
use proxpulse_judge.Client.Basic.{client_ip, forwarded_chain}
use proxpulse_judge.UnitTests.Notation.{texts, text_opt, texts_eq}

abbrev client_is : Option String → Option String → String → Bool → Bool → String → Bool
unfolding client_ip
client_is cf xff socket trust_proxy trust_cf ip =
    text_eq (client_ip (text_opt cf) (text_opt xff) (codes socket) trust_proxy trust_cf) (codes ip)

abbrev chain_is : String → String → Bool → Bool → Option String → List String → Bool
unfolding forwarded_chain
chain_is xff client trust_proxy trust_cf cf hops =
    texts_eq (forwarded_chain (some (codes xff)) (codes client) trust_proxy trust_cf (text_opt cf))
      (texts hops)

unfoldable client_ip_resolution : Bool
client_ip_resolution =
    client_is none none "9.9.9.9" false true "9.9.9.9"
    && client_is none none "9.9.9.9" true true "9.9.9.9"
    && client_is none (some "1.2.3.4, 5.6.7.8") "10.0.0.1" true true "5.6.7.8"

unfoldable client_ip_prefers_cf_header : Bool
client_ip_prefers_cf_header =
    client_is (some "5.6.7.8") (some "9.9.9.9, 5.6.7.8") "172.21.0.1" true true "5.6.7.8"
    && client_is (some "not-an-ip") (some "9.9.9.9, 5.6.7.8") "172.21.0.1" true true "5.6.7.8"
    && client_is (some "5.6.7.8") none "172.21.0.1" false false "172.21.0.1"

unfoldable chain_strips_caddy_entry : Bool
chain_strips_caddy_entry =
    chain_is "1.2.3.4, 5.6.7.8" "5.6.7.8" true false none ("1.2.3.4" ∷ [])
    && chain_is "5.6.7.8" "5.6.7.8" true false none []
    && chain_is "1.2.3.4" "9.9.9.9" false false none ("1.2.3.4" ∷ [])

unfoldable chain_strips_cdn_infra_hops : Bool
chain_strips_cdn_infra_hops =
    chain_is "1.2.3.4, 172.71.146.141, 10.29.121.232" "1.2.3.4" true true (some "1.2.3.4") []
    && chain_is "9.9.9.9, 172.71.146.141, 10.29.121.232" "9.9.9.9" true true (some "9.9.9.9") []
    && chain_is "1.2.3.4, 9.9.9.9, 172.71.146.141, 10.29.121.232" "9.9.9.9" true true
        (some "9.9.9.9") ("1.2.3.4" ∷ [])
    && chain_is "9.9.9.9, 5.6.7.8" "9.9.9.9" true true (some "9.9.9.9") []
    && chain_is "9.9.9.9" "1.1.1.1" true true (some "9.9.9.9") ("9.9.9.9" ∷ [])

unfoldable host_port_tolerance : Bool
unfolding clean_host
host_port_tolerance =
    text_eq (clean_host (codes "1.2.3.4:5678")) (codes "1.2.3.4")
    && text_eq (clean_host (codes "  1.2.3.4  ")) (codes "1.2.3.4")
    && text_eq (clean_host (codes "[::1]:8080")) (codes "::1")
    && text_eq (clean_host (codes "2001:db8::1")) (codes "2001:db8::1")
    && client_is none (some "9.9.9.9:40000, 5.6.7.8") "x" true true "5.6.7.8"
    && chain_is "1.2.3.4:40000, 5.6.7.8" "5.6.7.8" true false none ("1.2.3.4" ∷ [])

unfoldable client_ip_rejects_garbage_xff : Bool
client_ip_rejects_garbage_xff =
    client_is none (some "not-an-ip") "9.9.9.9" true true "9.9.9.9"
    && client_is none (some "1.2.3.4:80, garbage") "9.9.9.9" true true "9.9.9.9"
    && client_is none (some "1.2.3.4:80") "9.9.9.9" true true "1.2.3.4"

unfoldable trailing_garbage_xff_does_not_pop_earlier_client_hop : Bool
trailing_garbage_xff_does_not_pop_earlier_client_hop =
    chain_is "9.9.9.9, garbage" "9.9.9.9" true false none ("9.9.9.9" ∷ [])

unfoldable cdn_chain_uses_last_client_occurrence : Bool
cdn_chain_uses_last_client_occurrence =
    chain_is "9.9.9.9, 1.2.3.4, 9.9.9.9, 172.71.146.141, 10.29.121.232" "9.9.9.9" true true
      (some "9.9.9.9") ("1.2.3.4" ∷ [])
    && chain_is "9.9.9.9, 9.9.9.9, 172.71.146.141, 10.29.121.232" "9.9.9.9" true true
        (some "9.9.9.9") []

address_tests :
    (client_ip_resolution ≡ true)
    × (client_ip_prefers_cf_header ≡ true)
    × (chain_strips_caddy_entry ≡ true)
    × (chain_strips_cdn_infra_hops ≡ true)
    × (host_port_tolerance ≡ true)
    × (client_ip_rejects_garbage_xff ≡ true)
    × (trailing_garbage_xff_does_not_pop_earlier_client_hop ≡ true)
    × (cdn_chain_uses_last_client_occurrence ≡ true)
unfolding client_ip_resolution client_ip_prefers_cf_header chain_strips_caddy_entry
    chain_strips_cdn_infra_hops host_port_tolerance client_ip_rejects_garbage_xff
    trailing_garbage_xff_does_not_pop_earlier_client_hop cdn_chain_uses_last_client_occurrence
    client_is chain_is
address_tests = (refl, refl, refl, refl, refl, refl, refl, refl)
