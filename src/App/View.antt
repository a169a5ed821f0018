-- ===== src/App/View.antt =====
-- src/app.rs: what the answers show of the headers of a request.
use proxpulse_judge.Base.{
  Bool, true, false, not, ◌≡◌, refl, ap, ◌∙◌, Option, none, some, List, [], ◌∷◌, arith,
  if◌then◌else◌, Text, text_eq, contains, is_empty,
}
use proxpulse_judge.Str.Basic.{join}
use proxpulse_judge.Dict.{Dict, get, retain_keys, get-insert, get-remove, get-retain_keys}
use proxpulse_judge.Host.Basic.{split_xff}
use proxpulse_judge.Client.Basic.{pre_edge_xff}
use proxpulse_judge.Client.Edge.{pre_edge_xff-rejoined}
use proxpulse_judge.Anonymity.Basic.{x_forwarded_for}
use proxpulse_judge.App.State.{World, AppState}
use proxpulse_judge.App.Request.{
  HeaderMap, headers_lower, strip_view, proxy_view, cf_connecting_ip, comma_space,
}

choose :
    (t c : Bool) (a g : Option Text)
    → (if t then a else (if not c then g else none)) ≡ (if t then a else (if c then none else g))
choose true c a g = refl
choose false true a g = refl
choose false false a g = refl

text_eq_comm : (s t : Text) → text_eq s t ≡ text_eq t s
text_eq_comm [] [] = refl
text_eq_comm [] (d ∷ t) = refl
text_eq_comm (c ∷ s) [] = refl
text_eq_comm (c ∷ s) (d ∷ t) = ground (arith, text_eq_comm s t)

-- What is left of the headers behind `strip_view`.
pub strip_view-get :
    (edge pre : List Text) (view : Dict Text) (name : Text)
    → get (strip_view edge pre view) name ≡ (
        if text_eq x_forwarded_for name
        then (if is_empty pre then none else some (join comma_space pre))
        else if contains edge name
        then none
        else get view name)
unfolding strip_view
strip_view-get edge [] view name =
    let kept = retain_keys (λ n. not (contains edge n)) view in
    get-remove kept x_forwarded_for name
    ∙ rw (text_eq_comm name x_forwarded_for, get-retain_keys (λ n. not (contains edge n)) view name)
        (choose (text_eq x_forwarded_for name) (contains edge name) none (get view name))
strip_view-get edge (e ∷ pre) view name =
    let kept = retain_keys (λ n. not (contains edge n)) view in
    get-insert kept x_forwarded_for name (join comma_space (e ∷ pre))
    ∙ rw (get-retain_keys (λ n. not (contains edge n)) view name) (
        choose (text_eq x_forwarded_for name) (contains edge name)
          (some (join comma_space (e ∷ pre))) (get view name))

split_xff-shown :
    (pre : List Text)
    → split_xff (if is_empty pre then none else some (join comma_space pre))
      ≡ split_xff (some (join comma_space pre))
split_xff-shown [] = unfold split_xff join in refl
split_xff-shown (e ∷ pre) = refl

module _ (W : World) (s : AppState W) where
  -- The entries of X-Forwarded-For that were there before our proxy.
  abbrev pub entries_before : HeaderMap → Text → List Text
  entries_before headers me =
      pre_edge_xff (get (headers_lower W.from_utf8_lossy headers) x_forwarded_for) me s.trust_proxy
        s.trust_cf (get (headers_lower W.from_utf8_lossy headers) cf_connecting_ip)

  proxy_view-trusted :
      (headers : HeaderMap) (me : Text)
      → s.trust_proxy ≡ true
      → (proxy_view W s headers me).0
        ≡ strip_view s.edge_headers
            (entries_before headers me)
            (headers_lower W.from_utf8_lossy headers)
  unfolding proxy_view
  proxy_view-trusted headers me trust = rw trust refl

  shown :
      (headers : HeaderMap) (me n : Text)
      → s.trust_proxy ≡ true
      → get (proxy_view W s headers me).0 n
        ≡ get
            (strip_view s.edge_headers
              (entries_before headers me)
              (headers_lower W.from_utf8_lossy headers))
            n
  shown headers me n trust = ap (λ (m : Dict Text). get m n) (proxy_view-trusted headers me trust)

  -- of X-Forwarded-For, the entries from before the proxy
  pub proxy_view-xff :
      (headers : HeaderMap) (me : Text)
      → s.trust_proxy ≡ true
      → split_xff (get (proxy_view W s headers me).0 x_forwarded_for) ≡ entries_before headers me
  proxy_view-xff headers me trust =
      let view = headers_lower W.from_utf8_lossy headers in
      let pre = entries_before headers me in
      ap split_xff (
        shown headers me x_forwarded_for trust
        ∙ strip_view-get s.edge_headers pre view x_forwarded_for)
      ∙ split_xff-shown pre
      ∙ pre_edge_xff-rejoined (get view x_forwarded_for) me s.trust_proxy s.trust_cf
          (get view cf_connecting_ip)

  -- Behind a proxy, the answer shows no header that the proxy adds, shows every other header but
  -- X-Forwarded-For as it came, and of X-Forwarded-For the entries from before the proxy: they are
  -- what the text shown splits into, and none is shown where there are none.
  pub proxy_view-get :
      (headers : HeaderMap) (me name : Text)
      → s.trust_proxy ≡ true
      → text_eq x_forwarded_for name ≡ false
      → (get (proxy_view W s headers me).0 name ≡ (
          if contains s.edge_headers name
          then none
          else get (headers_lower W.from_utf8_lossy headers) name))
        × (split_xff (get (proxy_view W s headers me).0 x_forwarded_for)
            ≡ entries_before headers me)
  proxy_view-get headers me name trust other = (
    shown headers me name trust
        ∙ strip_view-get s.edge_headers (entries_before headers me)
            (headers_lower W.from_utf8_lossy headers) name
        ∙ rw other refl,
    proxy_view-xff headers me trust,
  )
