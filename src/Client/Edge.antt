-- ===== src/Client/Edge.antt =====
-- src/logic.rs: what a client can do to `client_ip` and to `pre_edge_xff` by the header it sends.
use proxpulse_judge.Base.{
  ℕ, zero, suc, Bool, true, false, not, ◌≡◌, refl, ap, Option, none, some, List, [], ◌∷◌, ◌++◌,
  arith, ◌>>=◌, unwrap_or, Text, codes, text_eq_refl, option_eq, retain, take, last?, pop, any, All,
  Bool-cases, Option-cases, none-some, length, inl, inr,
}
use proxpulse_judge.Str.Basic.{join}
use proxpulse_judge.Host.Basic.{split_xff, normalize_host}
use proxpulse_judge.Host.Normal.{normalize_host_idem}
use proxpulse_judge.Host.Entries.{
  IsEntry, split_xff-IsEntry, split_xff-append, split_xff-space, split_xff-entry, split_xff-join,
}
use proxpulse_judge.Client.Basic.{
  client_ip, cf_client, xff_client, pre_edge_xff, strip_edge, strip_cdn, names_client, rposition,
}

-- A header with the text `sent`, to which the proxy has added the address it was called from.
abbrev pub behind_proxy : Text → Text → Text
behind_proxy sent peer = sent ++ (b',' ∷ b' ' ∷ peer)

module _ {A : Type 0} where
  last?-append : (xs : List A) (x : A) → last? (xs ++ x ∷ []) ≡ some x
  last?-append [] x = refl
  last?-append (y ∷ []) x = refl
  last?-append (y ∷ z ∷ xs) x = last?-append (z ∷ xs) x

  pop-append : (xs : List A) (x : A) → pop (xs ++ x ∷ []) ≡ xs
  pop-append [] x = refl
  pop-append (y ∷ []) x = refl
  pop-append (y ∷ z ∷ xs) x = ap (λ l. y ∷ l) (pop-append (z ∷ xs) x)

  pop-All : (P : A → Type 0) (xs : List A) → All P xs → All P (pop xs)
  pop-All P [] h = h
  pop-All P (x ∷ []) h = tt
  pop-All P (x ∷ y ∷ xs) (h, hs) = (h, pop-All P (y ∷ xs) hs)

  take-All : (P : A → Type 0) (n : ℕ) (xs : List A) → All P xs → All P (take n xs)
  take-All P zero xs h = tt
  take-All P (suc n) [] h = tt
  take-All P (suc n) (x ∷ xs) (h, hs) = (h, take-All P n xs hs)

  retain-All : (P : A → Type 0) (p : A → Bool) (xs : List A) → All P xs → All P (retain p xs)
  retain-All P p [] h = tt
  retain-All P p (x ∷ xs) (h, hs) = elim (Bool-cases (p x)) [
    | inl e ↦ rw e (h, retain-All P p xs hs)
    | inr e ↦ rw e (retain-All P p xs hs)
  ]

  retain_sound : (p : A → Bool) (xs : List A) → All (λ x. p x ≡ true) (retain p xs)
  retain_sound p [] = tt
  retain_sound p (x ∷ xs) = elim (Bool-cases (p x)) [
    | inl e ↦ rw e (e, retain_sound p xs)
    | inr e ↦ rw e (retain_sound p xs)
  ]

  rposition-none : (p : A → Bool) (xs : List A) → any p xs ≡ false → rposition p xs ≡ none
  rposition-none p [] h = refl
  rposition-none p (x ∷ xs) h = ground (arith, rposition-none p xs)

  rposition-last :
      (p : A → Bool) (xs ys : List A) (x : A)
      → p x ≡ true
      → any p ys ≡ false
      → rposition p (xs ++ x ∷ ys) ≡ some (length xs)
  rposition-last p [] ys x h later = rw (rposition-none p ys later, h) refl
  rposition-last p (z ∷ xs) ys x h later = rw (rposition-last p xs ys x h later) refl

  take-append : (xs ys : List A) → take (length xs) (xs ++ ys) ≡ xs
  take-append [] ys = refl
  take-append (x ∷ xs) ys = ap (λ l. x ∷ l) (take-append xs ys)

split-behind_proxy :
    (sent peer : Text)
    → IsEntry peer
    → split_xff (some (behind_proxy sent peer)) ≡ split_xff (some sent) ++ peer ∷ []
split-behind_proxy sent peer h =
    rw (split_xff-append sent (b' ' ∷ peer), split_xff-space peer, split_xff-entry peer h) refl

-- Behind one proxy that appends the peer's address `peer`, the client's address is that peer,
-- whatever the client has sent in the header and whatever the other two sources hold.
pub client_ip-behind_proxy :
    (cf_ip : Option Text) (sent peer socket client : Text)
    → IsEntry peer
    → normalize_host peer ≡ some client
    → client_ip cf_ip (some (behind_proxy sent peer)) socket true false ≡ client
unfolding client_ip cf_client xff_client
client_ip-behind_proxy cf_ip sent peer socket client h n =
    rw (split-behind_proxy sent peer h, last?-append (split_xff (some sent)) peer, n) refl

-- Behind one proxy that appends the address it was called from, and for the client address that
-- stands there, `pre_edge_xff` gives the entries that the client has sent, and those only.
pub pre_edge_xff-behind_proxy :
    (cf_ip : Option Text) (sent peer client : Text)
    → IsEntry peer
    → normalize_host peer ≡ some client
    → pre_edge_xff (some (behind_proxy sent peer)) client true false cf_ip ≡ split_xff (some sent)
unfolding pre_edge_xff cf_client strip_edge
pre_edge_xff-behind_proxy cf_ip sent peer client h n =
    let m = normalize_host_idem peer client n in
    rw
      (
        split-behind_proxy sent peer h,
        last?-append (split_xff (some sent)) peer,
        n,
        m,
        text_eq_refl client,
        pop-append (split_xff (some sent)) peer,
      )
      refl

named_idem :
    (cf_ip : Option Text) (client : Text)
    → (cf_ip >>= normalize_host) ≡ some client
    → normalize_host client ≡ some client
named_idem none client c = absurd (none-some c)
named_idem (some t) client c = normalize_host_idem t client c

-- Behind a CDN whose header names the client, the entries up to the last one that names the client
-- stay, less those that name it: the CDN's own hops, which stand behind it, all go.
pub pre_edge_xff-behind_cdn :
    (xff cf_ip : Option Text) (client entry : Text) (sent hops : List Text)
    → (cf_ip >>= normalize_host) ≡ some client
    → split_xff xff ≡ sent ++ entry ∷ hops
    → names_client client entry ≡ true
    → any (names_client client) hops ≡ false
    → pre_edge_xff xff client true true cf_ip ≡ retain (λ e. not (names_client client e)) sent
unfolding pre_edge_xff cf_client strip_cdn
pre_edge_xff-behind_cdn xff cf_ip client entry sent hops c s here later =
    let n = named_idem cf_ip client c in
    rw
      (
        n,
        c,
        text_eq_refl client,
        s,
        rposition-last (names_client client) sent hops entry here later,
        take-append sent (entry ∷ hops),
      )
      refl

strip_cdn-All :
    (P : Text → Type 0) (client : Text) (raw : List Text) → All P raw → All P (strip_cdn client raw)
unfolding strip_cdn
strip_cdn-All P client raw h = elim (Option-cases (rposition (names_client client) raw)) [
  | inl e ↦ rw e (retain-All P _ raw h)
  | inr (pos, e) ↦ rw e (retain-All P _ (take pos raw) (take-All P pos raw h))
]

strip_edge-All :
    (P : Text → Type 0) (client : Text) (raw : List Text)
    → All P raw
    → All P (strip_edge client raw)
unfolding strip_edge
strip_edge-All P client raw h =
    elim (Bool-cases (option_eq (last? raw >>= normalize_host) (some client))) [
      | inl e ↦ rw e (pop-All P raw h)
      | inr e ↦ rw e h
    ]

pre_edge_xff-All :
    (P : Text → Type 0) (xff : Option Text) (client : Text) (trust_proxy trust_cf : Bool)
    (cf_ip : Option Text)
    → All P (split_xff xff)
    → All P (pre_edge_xff xff client trust_proxy trust_cf cf_ip)
unfolding pre_edge_xff
pre_edge_xff-All P xff client false trust_cf cf_ip h = h
pre_edge_xff-All P xff client true trust_cf cf_ip h =
    elim (Bool-cases
      (option_eq (cf_client cf_ip trust_cf) (some (unwrap_or (normalize_host client) client)))) [
        | inl e ↦
            rw e (strip_cdn-All P (unwrap_or (normalize_host client) client) (split_xff xff) h)
        | inr e ↦
            rw e (strip_edge-All P (unwrap_or (normalize_host client) client) (split_xff xff) h)
      ]

-- The header that is written from the entries of `pre_edge_xff`, joined by a comma and a space, has
-- those entries and no others when it is split again.
pub pre_edge_xff-rejoined :
    (xff : Option Text) (client : Text) (trust_proxy trust_cf : Bool) (cf_ip : Option Text)
    → split_xff (some (join (codes ", ") (pre_edge_xff xff client trust_proxy trust_cf cf_ip)))
      ≡ pre_edge_xff xff client trust_proxy trust_cf cf_ip
pre_edge_xff-rejoined xff client trust_proxy trust_cf cf_ip =
    split_xff-join (pre_edge_xff xff client trust_proxy trust_cf cf_ip)
      (pre_edge_xff-All IsEntry xff client trust_proxy trust_cf cf_ip (split_xff-IsEntry xff))
