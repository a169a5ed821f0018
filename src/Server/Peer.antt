-- ===== src/Server/Peer.antt =====
-- src/server.rs with src/app.rs: whom a service without a trusted proxy takes a connection for.
use proxpulse_judge.Base.{ℕ, ◌≡◌, refl, ap, ◌∙◌, Bool, false, Option, some, Text, map_option, codes}
use proxpulse_judge.Dict.{get}
use proxpulse_judge.Str.Basic.{print_u64}
use proxpulse_judge.Addr.Basic.{IpAddr, IsAddr}
use proxpulse_judge.Addr.Print.{print_addr}
use proxpulse_judge.Addr.Parse.{parse_addr}
use proxpulse_judge.Addr.Mapped.{parse-print_all}
use proxpulse_judge.Host.Basic.{canonical_text, normalize_host}
use proxpulse_judge.Host.Normal.{clean-print_addr}
use proxpulse_judge.Client.Basic.{client_ip, cf_client, xff_client}
use proxpulse_judge.RateLimit.Basic.{check}
use proxpulse_judge.App.State.{World, AppState}
use proxpulse_judge.App.Request.{HeaderMap, self_ip, joined_header, cf_connecting_ip}
use proxpulse_judge.Anonymity.Basic.{x_forwarded_for}
use proxpulse_judge.App.Rdns.{RdnsRun}
use proxpulse_judge.App.Judge.{route}
use proxpulse_judge.App.Middleware.{Request, Timing, is_monitoring}
use proxpulse_judge.App.Layers.{service-limited}
use proxpulse_judge.Server.Basic.{SocketAddr, with_peer, serve_request}

normalize_host-print :
    (a : IpAddr) → IsAddr a → normalize_host (print_addr a) ≡ some (canonical_text a)
unfolding normalize_host
normalize_host-print a w =
    ap (λ t. map_option canonical_text (parse_addr t)) (clean-print_addr a)
    ∙ ap (map_option canonical_text) (parse-print_all a w)

client_ip-untrusted :
    (cf xff : Option Text) (t n : Text) (trust_proxy trust_cf : Bool)
    → trust_proxy ≡ false
    → trust_cf ≡ false
    → normalize_host t ≡ some n
    → client_ip cf xff t trust_proxy trust_cf ≡ n
unfolding client_ip cf_client xff_client
client_ip-untrusted cf xff t n trust_proxy trust_cf p c e = rw (p, c, e) refl

module _ (W : World) where
  self_ip-untrusted :
      (s : AppState W) (headers : HeaderMap) (a : IpAddr)
      → IsAddr a
      → s.trust_proxy ≡ false
      → s.trust_cf ≡ false
      → self_ip W s headers (some a) ≡ canonical_text a
  unfolding self_ip
  self_ip-untrusted s headers a w p c =
      client_ip-untrusted (joined_header W.from_utf8_lossy headers cf_connecting_ip)
        (joined_header W.from_utf8_lossy headers x_forwarded_for) (print_addr a) (canonical_text a)
        s.trust_proxy s.trust_cf p c (normalize_host-print a w)

  -- Where the service trusts no proxy, a peer whose token is spent gets 429 over its connection and
  -- the seconds to wait, whatever headers it sends and whatever peer the request names.
  pub serve_request-limited :
      (t : Timing W) (version : Text) (run : RdnsRun W) (peer : SocketAddr) (req : Request)
      (s : AppState W) (secs : ℕ)
      → IsAddr peer.ip
      → s.trust_proxy ≡ false
      → s.trust_cf ≡ false
      → is_monitoring req.path ≡ false
      → (check W.float W.limit_cache s.rate_limit (canonical_text peer.ip) t.made t.now).1
        ≡ some secs
      → ((serve_request W t version run peer req s).0.status ≡ 429)
        × (get (serve_request W t version run peer req s).0.headers (codes "retry-after")
            ≡ some (print_u64 secs))
  unfolding serve_request with_peer
  serve_request-limited t version run peer req s secs w p c plain spent =
      let r = with_peer peer req in
      let e = self_ip-untrusted s req.headers peer.ip w p c in
      let turned =
        service-limited W t r (route W version run r) s secs plain
          (ap (λ who. (check W.float W.limit_cache s.rate_limit who t.made t.now).1) e ∙ spent) in
      (turned.0, turned.1)
