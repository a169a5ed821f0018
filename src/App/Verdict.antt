-- ===== src/App/Verdict.antt =====
-- src/app.rs: what `judge` answers on anonymity, behind a proxy that appends its peer.
use proxpulse_judge.Base.{
  true, false, ◌≡◌, ◌↔◌, ◌⊎◌, inl, inr, sym, ap, ◌∙◌, subst, Option, none, some, some_inj,
  none-some, List, [], ◌∷◌, ◌>>=◌, filter_map, Text, Any, unwrap_or, map_option, codes,
}
use proxpulse_judge.Dict.{get}
use proxpulse_judge.Addr.Basic.{IpAddr}
use proxpulse_judge.Addr.Print.{print_addr}
use proxpulse_judge.Host.Basic.{split_xff, normalize_host}
use proxpulse_judge.Host.Entries.{IsEntry}
use proxpulse_judge.Client.Edge.{behind_proxy, client_ip-behind_proxy, pre_edge_xff-behind_proxy}
use proxpulse_judge.Anonymity.Basic.{x_forwarded_for, anonymity_level, transparent, direct_addr}
use proxpulse_judge.Anonymity.Levels.{chain_of, ShownBy, transparent_iff}
use proxpulse_judge.App.State.{World, AppState}
use proxpulse_judge.App.Request.{
  HeaderMap, headers_lower, joined_header, proxy_view, self_ip, cf_connecting_ip,
}
use proxpulse_judge.App.Lower.{HasLowerNames, headers_lower-get}
use proxpulse_judge.App.View.{entries_before, proxy_view-xff}
use proxpulse_judge.App.Middleware.{Request}
use proxpulse_judge.App.Judge.{direct_raw, verdict}

Any-filter_map :
    (f : Text → Option Text) (t : Text) (l : List Text)
    → Any (λ c. c ≡ t) (filter_map f l) ↔ Any (λ e. f e ≡ some t) l
Any-filter_map f t [] = (λ h. h, λ h. h)
Any-filter_map f t (x ∷ l) =
    let ih = Any-filter_map f t l in
    elim (f x)
      as (λ o.
        Any (λ c. c ≡ t) (elim o [ none ↦ filter_map f l | some b ↦ b ∷ filter_map f l ])
        ↔ ((o ≡ some t) ⊎ Any (λ e. f e ≡ some t) l)) [
          | none ↦ (
            λ h. inr (ih.0 h),
            λ h. elim h [ inl bad ↦ absurd (none-some bad) | inr later ↦ ih.1 later ],
          )
          | some y ↦ (
            λ h. elim h [ inl here ↦ inl (ap some here) | inr later ↦ inr (ih.0 later) ],
            λ h. elim h [ inl here ↦ inl (some_inj here) | inr later ↦ inr (ih.1 later) ],
          )
        ]

module _ (W : World) (s : AppState W) (headers : HeaderMap) (sent peer client : Text)
    (trust : s.trust_proxy ≡ true) (no_cdn : s.trust_cf ≡ false) (lower : HasLowerNames headers)
    (added : joined_header W.from_utf8_lossy headers x_forwarded_for
      ≡ some (behind_proxy sent peer))
    (entry : IsEntry peer) (named : normalize_host peer ≡ some client) where
  self_ip-behind : (conn : Option IpAddr) → self_ip W s headers conn ≡ client
  unfolding self_ip
  self_ip-behind conn =
      rw (added, trust, no_cdn)
        (client_ip-behind_proxy (joined_header W.from_utf8_lossy headers cf_connecting_ip) sent peer
          (unwrap_or (map_option print_addr conn) (codes "127.0.0.1")) client entry named)

  entries-behind : entries_before W s headers client ≡ split_xff (some sent)
  entries-behind =
      rw (headers_lower-get W.from_utf8_lossy headers x_forwarded_for lower, added, trust, no_cdn)
        (pre_edge_xff-behind_proxy (get (headers_lower W.from_utf8_lossy headers) cf_connecting_ip)
          sent peer client entry named)

  chain-behind :
      chain_of (proxy_view W s headers client).0 ≡ filter_map normalize_host (split_xff (some sent))
  chain-behind =
      ap (filter_map normalize_host) (proxy_view-xff W s headers client trust ∙ entries-behind)

-- For the checker's address `d` and what a client has sent before the proxy.
module _ (W : World) (s : AppState W) (req : Request) (sent peer client : Text) where
  -- Behind a trusted proxy that appends its peer, an address, to X-Forwarded-For, with no trusted CDN
  -- and header names in lower case, a request is found transparent exactly if the checker's own address
  -- is known, and is an entry that the client has sent there, in whatever spelling, or is shown by
  -- another header of the answer that is not one of the edge.
  pub verdict_iff :
      s.trust_proxy ≡ true
      → s.trust_cf ≡ false
      → HasLowerNames req.headers
      → joined_header W.from_utf8_lossy req.headers x_forwarded_for ≡ some (behind_proxy sent peer)
      → IsEntry peer
      → normalize_host peer ≡ some client
      → (verdict W s req ≡ transparent) ↔ (
          (d : IpAddr) × (direct_addr (direct_raw W req >>= normalize_host) ≡ some d)
          × (Any (λ e. normalize_host e ≡ some (print_addr d)) (split_xff (some sent))
              ⊎ ShownBy d false (proxy_view W s req.headers client).0))
  verdict_iff trust no_cdn lower added entry named =
      let view = (proxy_view W s req.headers client).0 in
      let direct = direct_raw W req >>= normalize_host in
      let chain =
        chain-behind W s req.headers sent peer client trust no_cdn lower added entry named in
      let me =
        self_ip-behind W s req.headers sent peer client trust no_cdn lower added entry named
          req.conn in
      let here : verdict W s req ≡ anonymity_level view direct false =
        unfold verdict in
        ap (λ who. anonymity_level (proxy_view W s req.headers who).0 direct s.trust_cf) me
        ∙ ap (λ cdn. anonymity_level view direct cdn) no_cdn in
      let listed =
        λ (d : IpAddr). Any-filter_map normalize_host (print_addr d) (split_xff (some sent)) in
      (
        λ h.
            let (d, e, w) = (transparent_iff view direct false).0 (sym here ∙ h) in
            (
              d,
              e,
              elim w [
                | inl l ↦ inl ((listed d).0 (subst (λ c. Any (λ t. t ≡ print_addr d) c) chain l))
                | inr shown ↦ inr shown
              ],
            ),
        λ h.
            here
            ∙ (transparent_iff view direct false).1 (
              h.0,
              h.1,
              elim h.2 [
                | inl l ↦
                    inl
                      (subst (λ c. Any (λ t. t ≡ print_addr h.0) c) (sym chain) ((listed h.0).1 l))
                | inr shown ↦ inr shown
              ],
            ),
      )
