-- ===== src/Examples/Headers.antt =====
-- The theorems on headers, signatures and names at concrete inputs.
use proxpulse_judge.Base.{
  ◌≡◌, ◌↔◌, ◌⊎◌, true, false, not, refl, ◌>>=◌, none, some, [], ◌∷◌, ◌++◌, arith, Text, Bytes,
  codes, Any, any, retain,
}
use proxpulse_judge.Str.Basic.{trim}
use proxpulse_judge.Dict.{Dict, get, keys}
use proxpulse_judge.Addr.Basic.{IpAddr, v4}
use proxpulse_judge.Addr.Print.{print_addr}
use proxpulse_judge.Host.Basic.{split_xff, normalize_host, ip_in_text}
use proxpulse_judge.Host.Entries.{IsEntry}
use proxpulse_judge.Host.Leak.{Apart, Reads, ip_in_text_iff}
use proxpulse_judge.Client.Basic.{client_ip, pre_edge_xff, names_client}
use proxpulse_judge.Client.Edge.{
  behind_proxy, client_ip-behind_proxy, pre_edge_xff-behind_proxy, pre_edge_xff-behind_cdn,
}
use proxpulse_judge.Anonymity.Basic.{
  x_forwarded_for, elite, transparent, anonymity_level, direct_addr,
}
use proxpulse_judge.Anonymity.Levels.{chain_of, IsTold, ShownBy, elite_iff, transparent_iff}
use proxpulse_judge.Sign.Basic.{message}
use proxpulse_judge.Sign.Binding.{message_inj}

abbrev peer : Text
peer = codes "5.6.7.8"

peer-IsEntry : IsEntry peer
unfolding trim
peer-IsEntry = record { trimmed = refl; filled = refl; whole = refl }

peer_normal : normalize_host peer ≡ some peer
unfolding normalize_host
peer_normal = refl

client_ip-behind_proxy_example :
    client_ip none
      (some (behind_proxy (codes "1.1.1.1, 9.9.9.9") peer))
      (codes "10.0.0.1")
      true
      false
    ≡ peer
client_ip-behind_proxy_example =
    client_ip-behind_proxy none (codes "1.1.1.1, 9.9.9.9") peer (codes "10.0.0.1") peer peer-IsEntry
      peer_normal

pre_edge_xff-behind_proxy_example :
    pre_edge_xff (some (behind_proxy (codes "1.1.1.1, 9.9.9.9") peer)) peer true false none
    ≡ split_xff (some (codes "1.1.1.1, 9.9.9.9"))
pre_edge_xff-behind_proxy_example =
    pre_edge_xff-behind_proxy none (codes "1.1.1.1, 9.9.9.9") peer peer peer-IsEntry peer_normal

abbrev cdn_line : Text
cdn_line = codes "5.6.7.8, 1.2.3.4, 5.6.7.8, 172.71.146.141"

cdn_entries :
    split_xff (some cdn_line)
    ≡ (peer ∷ codes "1.2.3.4" ∷ []) ++ (peer ∷ codes "172.71.146.141" ∷ [])
unfolding split_xff
cdn_entries = refl

named : names_client peer peer ≡ true
unfolding names_client
named = refl

none_later : any (names_client peer) (codes "172.71.146.141" ∷ []) ≡ false
unfolding names_client
none_later = refl

cf_names : (some peer >>= normalize_host) ≡ some peer
unfolding normalize_host
cf_names = refl

pre_edge_xff-behind_cdn_example :
    pre_edge_xff (some cdn_line) peer true true (some peer)
    ≡ retain (λ e. not (names_client peer e)) (peer ∷ codes "1.2.3.4" ∷ [])
pre_edge_xff-behind_cdn_example =
    pre_edge_xff-behind_cdn (some cdn_line) (some peer) peer peer (peer ∷ codes "1.2.3.4" ∷ [])
      (codes "172.71.146.141" ∷ []) cf_names cdn_entries named none_later

abbrev leaked : Text
leaked = codes "https://x/?ip=1.2.3.4&y=1"

ip_in_text_iff_example :
    (ip_in_text leaked (v4 1 2 3 4) ≡ true)
    ↔ (Apart leaked (v4 1 2 3 4) ⊎ Reads leaked (v4 1 2 3 4))
ip_in_text_iff_example = ip_in_text_iff leaked (v4 1 2 3 4)

abbrev leaking : Dict Text
leaking = (codes "referer", leaked) ∷ []

transparent_iff_example : (anonymity_level leaking (some (codes "1.2.3.4")) true ≡ transparent) ↔ (
    (d : IpAddr) × (direct_addr (some (codes "1.2.3.4")) ≡ some d)
    × (Any (λ c. c ≡ print_addr d) (chain_of leaking) ⊎ ShownBy d true leaking))
transparent_iff_example = transparent_iff leaking (some (codes "1.2.3.4")) true

elite_iff_example : (anonymity_level leaking none true ≡ elite) ↔ (
    (split_xff (get leaking x_forwarded_for) ≡ [])
    × (¬ ((d : IpAddr) × (direct_addr none ≡ some d) × ShownBy d true leaking))
    × (¬ Any (λ k. IsTold k true) (keys leaking)))
elite_iff_example = elite_iff leaking none true

abbrev nonce : Text
nonce = codes "abc"

abbrev address : Text
address = codes "9.9"

abbrev answer : Bytes
answer = b'x' ∷ []

same_message : message nonce address answer ≡ message nonce address answer
same_message = refl

message_inj_example : (nonce ≡ nonce) × (address ≡ address) × (answer ≡ answer)
message_inj_example =
    message_inj nonce nonce address address answer answer
      (omega arith, (omega arith, (omega arith, tt)))
      (omega arith, (omega arith, (omega arith, tt)))
      (omega arith, (omega arith, (omega arith, tt)))
      (omega arith, (omega arith, (omega arith, tt)))
      (λ e. omega arith, (λ e. omega arith, (λ e. omega arith, tt)))
      (λ e. omega arith, (λ e. omega arith, (λ e. omega arith, tt)))
      (λ e. omega arith, (λ e. omega arith, (λ e. omega arith, tt)))
      (λ e. omega arith, (λ e. omega arith, (λ e. omega arith, tt))) same_message
