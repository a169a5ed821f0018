-- ===== src/App/Request.antt =====
-- src/app.rs: what a handler reads from a request's headers.
use proxpulse_judge.Base.{
  not, Option, none, some, List, [], ◌∷◌, ◌++◌, if◌then◌else◌, unwrap_or, map_option, Text, Bytes,
  codes, text_eq, contains, is_empty,
}
use proxpulse_judge.Str.Basic.{to_ascii_lowercase, join}
use proxpulse_judge.Dict.{Dict, get, insert, remove, retain_keys}
use proxpulse_judge.Addr.Basic.{IpAddr}
use proxpulse_judge.Addr.Print.{print_addr}
use proxpulse_judge.Host.Basic.{normalize_chain}
use proxpulse_judge.Client.Basic.{client_ip, pre_edge_xff}
use proxpulse_judge.Anonymity.Basic.{x_forwarded_for}
use proxpulse_judge.App.State.{World, AppState}

-- The header lines in order; the crate `http` keeps names in lower case.
abbrev pub HeaderMap : Type 0
HeaderMap = List (Text × Bytes)

unfoldable pub get_all : HeaderMap → Text → List Bytes
get_all [] name = []
get_all ((n, v) ∷ lines) name =
    let rest = get_all lines name in if text_eq n name then v ∷ rest else rest

abbrev pub drop_name : Text → List Text → List Text
drop_name name [] = []
drop_name name (n ∷ ns) = let rest = drop_name name ns in if text_eq n name then rest else n ∷ rest

-- `HeaderMap::keys`: each name once, where it stands first.
unfoldable pub header_names : HeaderMap → List Text
header_names [] = []
header_names ((n, v) ∷ lines) = n ∷ drop_name n (header_names lines)

abbrev pub comma_space : Text
comma_space = codes ", "

unfoldable pub push_values : (Bytes → Text) → Text → List Bytes → Text
push_values lossy out [] = out
push_values lossy out (v ∷ vs) = push_values lossy (out ++ (comma_space ++ lossy v)) vs

unfoldable pub join_values : (Bytes → Text) → List Bytes → Option Text
unfolding push_values
join_values lossy [] = none
join_values lossy (first ∷ values) = some (push_values lossy (lossy first) values)

unfoldable pub joined_header : (Bytes → Text) → HeaderMap → Text → Option Text
unfolding join_values get_all
joined_header lossy headers name = join_values lossy (get_all headers name)

unfoldable pub put_header : Dict Text → Text → Option Text → Dict Text
unfolding to_ascii_lowercase insert
put_header view name none = view
put_header view name (some v) = insert view (to_ascii_lowercase name) v

-- `collect` into a map, one name after the other
unfoldable pub collect_headers : (Bytes → Text) → HeaderMap → List Text → Dict Text → Dict Text
unfolding joined_header put_header
collect_headers lossy headers [] view = view
collect_headers lossy headers (name ∷ names) view =
    collect_headers lossy headers names (put_header view name (joined_header lossy headers name))

unfoldable pub headers_lower : (Bytes → Text) → HeaderMap → Dict Text
unfolding collect_headers header_names
headers_lower lossy headers = collect_headers lossy headers (header_names headers) []

abbrev pub cf_connecting_ip : Text
cf_connecting_ip = codes "cf-connecting-ip"

-- What goes into the answer: X-Forwarded-For as far as it was there before our proxy, no header of
-- our proxy.
unfoldable pub strip_view : List Text → List Text → Dict Text → Dict Text
unfolding retain_keys remove insert join
strip_view edge_headers pre_edge view =
    let kept = retain_keys (λ name. not (contains edge_headers name)) view in
    if is_empty pre_edge
    then remove kept x_forwarded_for
    else insert kept x_forwarded_for (join comma_space pre_edge)

module _ (W : World) (s : AppState W) where
  unfoldable pub self_ip : HeaderMap → Option IpAddr → Text
  unfolding joined_header print_addr client_ip
  self_ip headers conn =
      client_ip (joined_header W.from_utf8_lossy headers cf_connecting_ip)
        (joined_header W.from_utf8_lossy headers x_forwarded_for)
        (unwrap_or (map_option print_addr conn) (codes "127.0.0.1")) s.trust_proxy s.trust_cf

  unfoldable pub proxy_view : HeaderMap → Text → Dict Text × List Text
  unfolding headers_lower pre_edge_xff normalize_chain strip_view get
  proxy_view headers me =
      let view = headers_lower W.from_utf8_lossy headers in
      let pre_edge =
        pre_edge_xff (get view x_forwarded_for) me s.trust_proxy s.trust_cf
          (get view cf_connecting_ip) in
      (
        if s.trust_proxy then strip_view s.edge_headers pre_edge view else view,
        normalize_chain pre_edge,
      )
