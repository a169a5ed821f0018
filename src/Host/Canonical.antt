-- ===== src/Host/Canonical.antt =====
-- src/logic.rs: the texts that `normalize_host` gives are its fixed points.
use proxpulse_judge.Base.{◌≡◌, ap, ◌∙◌, some, map_option, Text}
use proxpulse_judge.Addr.Basic.{IpAddr, IsAddr, to_canonical_idem}
use proxpulse_judge.Addr.Print.{print_addr}
use proxpulse_judge.Addr.Parse.{parse_addr}
use proxpulse_judge.Addr.RoundTrip.{parse-print_canonical}
use proxpulse_judge.Host.Basic.{clean_host, canonical_text, normalize_host}

read_back :
    (ip : IpAddr)
    → IsAddr ip
    → map_option canonical_text (parse_addr (canonical_text ip)) ≡ some (canonical_text ip)
unfolding canonical_text
read_back ip h =
    ap (map_option canonical_text) (parse-print_canonical ip h)
    ∙ ap (λ a. some (print_addr a)) (to_canonical_idem ip)

-- A text that is, once cleaned of port, brackets and blanks, the canonical text of an address whose
-- octets or segments are in range, is normalized to that canonical text.
pub normalize_host-canonical :
    (t : Text) (ip : IpAddr)
    → IsAddr ip
    → clean_host t ≡ canonical_text ip
    → normalize_host t ≡ some (canonical_text ip)
unfolding normalize_host
normalize_host-canonical t ip h e =
    ap (λ u. map_option canonical_text (parse_addr u)) e ∙ read_back ip h
