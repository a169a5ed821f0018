-- ===== src/Examples/Judge.antt =====
-- The theorems that join the parts of the service at concrete inputs.
use proxpulse_judge.Base.{◌≡◌, ◌↔◌, ◌⊎◌, true, false, refl, some, ◌>>=◌, Any, codes}
use proxpulse_judge.Str.Basic.{trim, to_ascii_lowercase}
use proxpulse_judge.Addr.Basic.{IpAddr}
use proxpulse_judge.Addr.Print.{print_addr}
use proxpulse_judge.Host.Basic.{split_xff, normalize_host}
use proxpulse_judge.Host.Entries.{IsEntry}
use proxpulse_judge.Host.Normal.{normalize_host_idem}
use proxpulse_judge.Client.Edge.{behind_proxy}
use proxpulse_judge.Anonymity.Basic.{x_forwarded_for, transparent, direct_addr}
use proxpulse_judge.Anonymity.Levels.{ShownBy}
use proxpulse_judge.App.Request.{joined_header, proxy_view}
use proxpulse_judge.App.Lower.{HasLowerNames}
use proxpulse_judge.App.Middleware.{Request}
use proxpulse_judge.App.Judge.{direct_raw, verdict}
use proxpulse_judge.App.Verdict.{verdict_iff}
use proxpulse_judge.Examples.Setting.{toy_world, toy_state, request_of}

in_brackets : normalize_host (codes "[::ffff:1.2.3.4]:80") ≡ some (codes "1.2.3.4")
unfolding normalize_host
in_brackets = refl

normalize_host_idem_example : normalize_host (codes "1.2.3.4") ≡ some (codes "1.2.3.4")
normalize_host_idem_example =
    normalize_host_idem (codes "[::ffff:1.2.3.4]:80") (codes "1.2.3.4") in_brackets

-- A request that tells the checker's address in X-Forwarded-For.
abbrev telling : Request
telling = record (request_of (codes "/judge")) { direct_ip = some (codes "9.9.9.9") }

trusts : toy_state.trust_proxy ≡ true
unfolding toy_state
trusts = refl

no_cdn : toy_state.trust_cf ≡ false
unfolding toy_state
no_cdn = refl

low : HasLowerNames telling.headers
unfolding to_ascii_lowercase
low = (refl, (refl, (refl, tt)))

sent_on :
    joined_header (λ b. b) telling.headers x_forwarded_for
    ≡ some (behind_proxy (codes "9.9.9.9") (codes "5.6.7.8"))
unfolding joined_header
sent_on = refl

peer-IsEntry : IsEntry (codes "5.6.7.8")
unfolding trim
peer-IsEntry = record { trimmed = refl; filled = refl; whole = refl }

peer_normal : normalize_host (codes "5.6.7.8") ≡ some (codes "5.6.7.8")
unfolding normalize_host
peer_normal = refl

verdict_iff_example : (verdict toy_world toy_state telling ≡ transparent) ↔ (
    (d : IpAddr) × (direct_addr (direct_raw toy_world telling >>= normalize_host) ≡ some d)
    × (Any (λ e. normalize_host e ≡ some (print_addr d)) (split_xff (some (codes "9.9.9.9")))
        ⊎ ShownBy d false (proxy_view toy_world toy_state telling.headers (codes "5.6.7.8")).0))
verdict_iff_example =
    verdict_iff toy_world toy_state telling (codes "9.9.9.9") (codes "5.6.7.8") (codes "5.6.7.8")
      trusts no_cdn low sent_on peer-IsEntry peer_normal
