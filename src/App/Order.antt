-- ===== src/App/Order.antt =====
-- src/app.rs: the verdict of `judge` on requests whose header lines come in another order.
use proxpulse_judge.Base.{
  Bool, true, false, ◌≡◌, refl, sym, ap, ◌∙◌, Option, none, some, List, [], ◌∷◌, ◌>>=◌, Text, Bytes,
  unwrap_or, map_option, codes,
}
use proxpulse_judge.Str.Basic.{to_ascii_lowercase}
use proxpulse_judge.Dict.{Dict, get, HasUniqueKeys}
use proxpulse_judge.Dict.Same.{SameEntries}
use proxpulse_judge.Dict.Unique.{
  insert-HasUniqueKeys, retain_keys-HasUniqueKeys, remove-HasUniqueKeys,
}
use proxpulse_judge.Addr.Basic.{IpAddr}
use proxpulse_judge.Addr.Print.{print_addr}
use proxpulse_judge.Host.Basic.{normalize_host}
use proxpulse_judge.Client.Basic.{client_ip, pre_edge_xff}
use proxpulse_judge.Anonymity.Basic.{Level, x_forwarded_for, anonymity_level}
use proxpulse_judge.Anonymity.Order.{anonymity_level-SameEntries}
use proxpulse_judge.App.State.{World, AppState}
use proxpulse_judge.App.Request.{
  HeaderMap, get_all, join_values, joined_header, put_header, collect_headers, header_names,
  headers_lower, strip_view, proxy_view, self_ip, cf_connecting_ip,
}
use proxpulse_judge.App.Lower.{HasLowerNames, headers_lower-get}
use proxpulse_judge.App.View.{entries_before, strip_view-get}
use proxpulse_judge.App.Middleware.{Request}
use proxpulse_judge.App.Judge.{direct_raw, verdict}

-- Each header has the same values in the same order.
abbrev pub SameValues : HeaderMap → HeaderMap → Type 0
SameValues headers others = (name : Text) → get_all headers name ≡ get_all others name

put_header-HasUniqueKeys :
    (view : Dict Text) (name : Text) (o : Option Text)
    → HasUniqueKeys view
    → HasUniqueKeys (put_header view name o)
unfolding put_header
put_header-HasUniqueKeys view name none u = u
put_header-HasUniqueKeys view name (some v) u =
    insert-HasUniqueKeys view (to_ascii_lowercase name) v u

collect_headers-HasUniqueKeys :
    (lossy : Bytes → Text) (headers : HeaderMap) (names : List Text) (view : Dict Text)
    → HasUniqueKeys view
    → HasUniqueKeys (collect_headers lossy headers names view)
unfolding collect_headers
collect_headers-HasUniqueKeys lossy headers [] view u = u
collect_headers-HasUniqueKeys lossy headers (name ∷ names) view u =
    collect_headers-HasUniqueKeys lossy headers names _
      (put_header-HasUniqueKeys view name (joined_header lossy headers name) u)

headers_lower-HasUniqueKeys :
    (lossy : Bytes → Text) (headers : HeaderMap) → HasUniqueKeys (headers_lower lossy headers)
unfolding headers_lower
headers_lower-HasUniqueKeys lossy headers =
    collect_headers-HasUniqueKeys lossy headers (header_names headers) [] tt

strip_view-HasUniqueKeys :
    (edge pre : List Text) (view : Dict Text)
    → HasUniqueKeys view
    → HasUniqueKeys (strip_view edge pre view)
unfolding strip_view
strip_view-HasUniqueKeys edge [] view u =
    remove-HasUniqueKeys _ x_forwarded_for (retain_keys-HasUniqueKeys _ view u)
strip_view-HasUniqueKeys edge (e ∷ pre) view u =
    insert-HasUniqueKeys _ x_forwarded_for _ (retain_keys-HasUniqueKeys _ view u)

strip_view-SameEntries :
    (edge pre : List Text) (view other : Dict Text)
    → SameEntries view other
    → SameEntries (strip_view edge pre view) (strip_view edge pre other)
strip_view-SameEntries edge pre view other e name =
    strip_view-get edge pre view name ∙ rw (e name) (sym (strip_view-get edge pre other name))

joined_header-SameValues :
    (lossy : Bytes → Text) (headers others : HeaderMap) (name : Text)
    → SameValues headers others
    → joined_header lossy headers name ≡ joined_header lossy others name
unfolding joined_header
joined_header-SameValues lossy headers others name e = ap (join_values lossy) (e name)

headers_lower-SameEntries :
    (lossy : Bytes → Text) (headers others : HeaderMap)
    → HasLowerNames headers
    → HasLowerNames others
    → SameValues headers others
    → SameEntries (headers_lower lossy headers) (headers_lower lossy others)
headers_lower-SameEntries lossy headers others low lows e k =
    headers_lower-get lossy headers k low
    ∙ joined_header-SameValues lossy headers others k e
    ∙ sym (headers_lower-get lossy others k lows)

module _ (W : World) (s : AppState W) (headers others : HeaderMap) (low : HasLowerNames headers)
    (lows : HasLowerNames others) (e : SameValues headers others) where
  self_ip-SameValues : (conn : Option IpAddr) → self_ip W s headers conn ≡ self_ip W s others conn
  unfolding self_ip
  self_ip-SameValues conn =
      let socket = unwrap_or (map_option print_addr conn) (codes "127.0.0.1") in
      let lossy = W.from_utf8_lossy in
      ap
        (λ (cf : Option Text).
          client_ip cf (joined_header lossy headers x_forwarded_for) socket s.trust_proxy
            s.trust_cf)
        (joined_header-SameValues lossy headers others cf_connecting_ip e)
      ∙ ap
          (λ (xff : Option Text).
            client_ip (joined_header lossy others cf_connecting_ip) xff socket s.trust_proxy
              s.trust_cf)
          (joined_header-SameValues lossy headers others x_forwarded_for e)

  entries_before-SameValues :
      (me : Text) → entries_before W s headers me ≡ entries_before W s others me
  entries_before-SameValues me =
      let same = headers_lower-SameEntries W.from_utf8_lossy headers others low lows e in
      ap
        (λ (xff : Option Text).
          pre_edge_xff xff me s.trust_proxy s.trust_cf
            (get (headers_lower W.from_utf8_lossy headers) cf_connecting_ip))
        (same x_forwarded_for)
      ∙ ap
          (λ (cf : Option Text).
            pre_edge_xff (get (headers_lower W.from_utf8_lossy others) x_forwarded_for) me
              s.trust_proxy s.trust_cf cf)
          (same cf_connecting_ip)

-- what `proxy_view` shows, by the configuration
module _ (W : World) (s : AppState W) where
  view_by : Bool → HeaderMap → Text → Dict Text
  view_by true h me =
      strip_view s.edge_headers (entries_before W s h me) (headers_lower W.from_utf8_lossy h)
  view_by false h me = headers_lower W.from_utf8_lossy h

  proxy_view-by :
      (trust : Bool) (h : HeaderMap) (me : Text)
      → s.trust_proxy ≡ trust
      → (proxy_view W s h me).0 ≡ view_by trust h me
  unfolding proxy_view view_by
  proxy_view-by true h me t = rw t refl
  proxy_view-by false h me t = rw t refl

  view_by-HasUniqueKeys :
      (trust : Bool) (h : HeaderMap) (me : Text) → HasUniqueKeys (view_by trust h me)
  unfolding view_by
  view_by-HasUniqueKeys true h me =
      strip_view-HasUniqueKeys s.edge_headers _ _ (headers_lower-HasUniqueKeys W.from_utf8_lossy h)
  view_by-HasUniqueKeys false h me = headers_lower-HasUniqueKeys W.from_utf8_lossy h

  view_by-SameEntries :
      (trust : Bool) (headers others : HeaderMap) (me : Text)
      → HasLowerNames headers
      → HasLowerNames others
      → SameValues headers others
      → SameEntries (view_by trust headers me) (view_by trust others me)
  unfolding view_by
  view_by-SameEntries true headers others me low lows e name =
      let view = headers_lower W.from_utf8_lossy in
      strip_view-SameEntries s.edge_headers (entries_before W s headers me) (view headers)
        (view others) (headers_lower-SameEntries W.from_utf8_lossy headers others low lows e) name
      ∙ ap (λ (pre : List Text). get (strip_view s.edge_headers pre (view others)) name)
          (entries_before-SameValues W s headers others low lows e me)
  view_by-SameEntries false headers others me low lows e name =
      headers_lower-SameEntries W.from_utf8_lossy headers others low lows e name

  -- the level of what is shown
  level_shown : HeaderMap → Text → Option Text → Level
  level_shown h me direct = anonymity_level (proxy_view W s h me).0 direct s.trust_cf

  level_shown-SameValues :
      (headers others : HeaderMap) (me : Text) (direct : Option Text)
      → HasLowerNames headers
      → HasLowerNames others
      → SameValues headers others
      → level_shown headers me direct ≡ level_shown others me direct
  unfolding level_shown
  level_shown-SameValues headers others me direct low lows e =
      let level = λ (m : Dict Text). anonymity_level m direct s.trust_cf in
      ap level (proxy_view-by s.trust_proxy headers me refl)
      ∙ anonymity_level-SameEntries (view_by s.trust_proxy headers me)
          (view_by s.trust_proxy others me) direct s.trust_cf
          (view_by-HasUniqueKeys s.trust_proxy headers me)
          (view_by-HasUniqueKeys s.trust_proxy others me)
          (view_by-SameEntries s.trust_proxy headers others me low lows e)
      ∙ sym (ap level (proxy_view-by s.trust_proxy others me refl))

  -- The verdict on a request depends on nothing of the order of its header lines but the order of
  -- the values of one header: requests that differ only in how the lines of different headers are
  -- mixed, their names in lower case, have the same verdict, whatever the configuration.
  pub verdict-SameValues :
      (req : Request) (others : HeaderMap)
      → HasLowerNames req.headers
      → HasLowerNames others
      → SameValues req.headers others
      → verdict W s req ≡ verdict W s (record req { headers = others })
  unfolding verdict level_shown direct_raw
  verdict-SameValues req others low lows e =
      let direct = direct_raw W req >>= normalize_host in
      level_shown-SameValues req.headers others (self_ip W s req.headers req.conn) direct low lows e
      ∙ ap (λ (me : Text). level_shown others me direct)
          (self_ip-SameValues W s req.headers others low lows e req.conn)
