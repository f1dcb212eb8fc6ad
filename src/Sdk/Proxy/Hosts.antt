-- ===== src/Sdk/Proxy/Hosts.antt =====
-- sdk/src/reverse_proxy.rs, lines 457 to 482: the hosts of apps.

use wispers_access.Host.Config.Names.{is_blank}
use wispers_access.Prelude.{
  List, Option, split, Option-cases, all-append, if◌then◌else◌, ◌⊎◌, Bool-cases, ap, codes, false,
  inl, inr, split_field, split_none, text_eq, text_eq_iff, ◌∙◌,
}
use wispers_access.Sdk.Proxy.{proxy_route, strip_dot, without_port}
use wispers_access.Host.Config.Names.{rsplit_once}
use wispers_access.Prelude.{
  ==_refl, Text, [], all, arith, drop-length-append, length, length-append, none, not, refl, some,
  take-length-append, text_eq_refl, true, ℕ, ◌++◌, ◌-◌, ◌==◌, ◌∷◌, ◌≡◌,
}
use wispers_access.Prelude.Searches.{all_implies}
use wispers_access.Sdk.Proxy.{
  is_ascii_digit, app_route, is_dns_label, is_label_char, labels_route, parse_host, prefix_route,
  proxy_domain, strip_suffix,
}

strip_suffix-append : (s suffix : Text) → strip_suffix suffix (s ++ suffix) ≡ some s
unfolding strip_suffix
strip_suffix-append s suffix =
    let n : (length (s ++ suffix) - length suffix) ≡ length s =
      omega (arith, length-append s suffix) in
    rw (n, drop-length-append s suffix, take-length-append s suffix, text_eq_refl suffix)
      (ground (arith, length-append s suffix))

rsplit_once-none :
    (sep : ℕ) (s : Text) → all (λ c. not (c == sep)) s ≡ true → rsplit_once sep s ≡ none
unfolding rsplit_once
rsplit_once-none sep [] h = refl
rsplit_once-none sep (c ∷ s) h = ground (arith, rsplit_once-none sep s)

rsplit_once-last :
    (sep : ℕ) (s t : Text)
    → all (λ c. not (c == sep)) t ≡ true
    → rsplit_once sep (s ++ (sep ∷ t)) ≡ some (s, t)
unfolding rsplit_once
rsplit_once-last sep [] t h = rw (rsplit_once-none sep t h) (rw (==_refl sep))
rsplit_once-last sep (c ∷ s) t h = rw (rsplit_once-last sep s t h)

abbrev pub app_host : Text → Text → Text
app_host app share = app ++ (b'.' ∷ (share ++ (b'.' ∷ proxy_domain)))

no_dot : (s : Text) → is_dns_label s ≡ true → all (λ c. not (c == b'.')) s ≡ true
unfolding is_dns_label is_label_char
no_dot s h =
    all_implies is_label_char (λ c. not (c == b'.')) s (λ c k. ground arith) (ground (arith, h))

not_blank : (s : Text) → is_dns_label s ≡ true → is_blank s ≡ false
unfolding is_dns_label
not_blank s h = ground (arith, h)

no_colon : (s : Text) → all is_ascii_digit s ≡ true → all (λ c. not (c == b':')) s ≡ true
unfolding is_ascii_digit
no_colon s = all_implies is_ascii_digit (λ c. not (c == b':')) s (λ c k. ground arith)

share_dot : (share rest : Text) → share ++ (b'.' ∷ rest) ≡ (share ++ codes ".") ++ rest
share_dot [] rest = refl
share_dot (c ∷ share) rest = ap (◌∷◌ c) (share_dot share rest)

app_share_dot :
    (app share rest : Text)
    → app ++ (b'.' ∷ (share ++ (b'.' ∷ rest))) ≡ ((app ++ (b'.' ∷ share)) ++ codes ".") ++ rest
app_share_dot [] share rest = ap (◌∷◌ b'.') (share_dot share rest)
app_share_dot (c ∷ app) share rest = ap (◌∷◌ c) (app_share_dot app share rest)

not_domain : (app share : Text) → text_eq (app_host app share) proxy_domain ≡ false
not_domain app share = elim (Bool-cases (text_eq (app_host app share) proxy_domain)) [
  | inr e ↦ e
  | inl e ↦
      let same = (text_eq_iff (app_host app share) proxy_domain).0 e in
      absurd (
        omega (
          arith,
          ap length same,
          length-append app (b'.' ∷ (share ++ (b'.' ∷ proxy_domain))),
          length-append share (b'.' ∷ proxy_domain),
        ))
]

strip_host :
    (app share : Text)
    → strip_dot (strip_suffix proxy_domain (app_host app share)) ≡ some (app ++ (b'.' ∷ share))
unfolding strip_dot
strip_host app share =
    ap (λ (h : Text). strip_dot (strip_suffix proxy_domain h))
      (app_share_dot app share proxy_domain)
    ∙ ap strip_dot (strip_suffix-append ((app ++ (b'.' ∷ share)) ++ codes ".") proxy_domain)
    ∙ strip_suffix-append (app ++ (b'.' ∷ share)) (codes ".")

prefix_route-labels :
    (app share : Text)
    → is_dns_label app ≡ true
    → is_dns_label share ≡ true
    → prefix_route (some (app ++ (b'.' ∷ share))) ≡ some (app_route share app)
unfolding prefix_route labels_route
prefix_route-labels app share a s = rw (split_field b'.' app share (no_dot app a)) (
    rw (split_none b'.' share (no_dot share s))
      (ground (arith, not_blank app a, not_blank share s)))

-- A request to the host of an app of a share, whose names are DNS labels, with a port, goes to that
-- app of that share.
pub parse_host-app_host :
    (app share port : Text)
    → is_dns_label app ≡ true
    → is_dns_label share ≡ true
    → all is_ascii_digit port ≡ true
    → parse_host (app_host app share ++ (b':' ∷ port)) ≡ some (app_route share app)
unfolding parse_host without_port
parse_host-app_host app share port a s p =
    rw (rsplit_once-last b':' (app_host app share) port (no_colon port p)) (
      rw (p, not_domain app share)
        (ap prefix_route (strip_host app share) ∙ prefix_route-labels app share a s))

rsplit_once-some :
    (sep : ℕ) (s : Text) (p : Text × Text) → rsplit_once sep s ≡ some p → s ≡ p.0 ++ (sep ∷ p.1)
unfolding rsplit_once
rsplit_once-some sep [] p h = absurd (cc h)
rsplit_once-some sep (c ∷ s) p h = elim (Option-cases (rsplit_once sep s)) [
  | inr (r, e) ↦
      let k : (c ∷ r.0, r.1) ≡ p = cc (rw (rsplit_once, e) at h) in
      ap (◌∷◌ c) (rsplit_once-some sep s r e) ∙ ap (λ (q : Text × Text). q.0 ++ (sep ∷ q.1)) k
  | inl e ↦ elim (Bool-cases (c == sep)) [
    | inl f ↦
        let k : Path (Text × Text) ([], s) p = cc (rw (rsplit_once, e, f) at h) in
        ap (λ x. x ∷ s) (ground (arith, f)) ∙ ap (λ (q : Text × Text). q.0 ++ (sep ∷ q.1)) k
    | inr f ↦ absurd (cc (rw (rsplit_once, e, f) at h))
  ]
]

labels_route-other : (ls : List Text) → ¬ (labels_route ls ≡ some proxy_route)
unfolding labels_route
labels_route-other [] h = cc h
labels_route-other (a ∷ []) h = cc h
labels_route-other (a ∷ b ∷ []) h = ground (arith, h)
labels_route-other (a ∷ b ∷ c ∷ rest) h = cc h

prefix_route-other : (o : Option Text) → ¬ (prefix_route o ≡ some proxy_route)
unfolding prefix_route
prefix_route-other none h = cc h
prefix_route-other (some s) h = labels_route-other (split b'.' s) h

label_no_colon : (s : Text) → is_dns_label s ≡ true → all (λ c. not (c == b':')) s ≡ true
unfolding is_dns_label is_label_char
label_no_colon s h =
    all_implies is_label_char (λ c. not (c == b':')) s (λ c k. ground arith) (ground (arith, h))

no_colon-app_host :
    (app share : Text)
    → is_dns_label app ≡ true
    → is_dns_label share ≡ true
    → all (λ c. not (c == b':')) (app_host app share) ≡ true
no_colon-app_host app share a s =
    all-append _ app (b'.' ∷ (share ++ (b'.' ∷ proxy_domain))) (label_no_colon app a)
      (all-append _ share (b'.' ∷ proxy_domain) (label_no_colon share s) refl)

routed_domain :
    (h : Text)
    → (if text_eq h proxy_domain
        then some proxy_route
        else prefix_route (strip_dot (strip_suffix proxy_domain h)))
      ≡ some proxy_route
    → h ≡ proxy_domain
routed_domain h e = elim (Bool-cases (text_eq h proxy_domain)) [
  | inl f ↦ (text_eq_iff h proxy_domain).0 f
  | inr f ↦ absurd (prefix_route-other (strip_dot (strip_suffix proxy_domain h)) (rw f at e))
]

-- The proxy's own hosts.
IsOwnHost : Text → Type 0
IsOwnHost host =
    (host ≡ proxy_domain)
    ⊎ ((port : Text) × (all is_ascii_digit port ≡ true) × (host ≡ proxy_domain ++ (b':' ∷ port)))

parse_host-IsOwnHost : (host : Text) → parse_host host ≡ some proxy_route → IsOwnHost host
unfolding parse_host without_port IsOwnHost
parse_host-IsOwnHost host h = elim (Option-cases (rsplit_once b':' host)) [
  | inl n ↦ inl (routed_domain host (rw n at h))
  | inr (p, n) ↦ elim (Bool-cases (all is_ascii_digit p.1)) [
    | inl d ↦
        let e = routed_domain p.0 (rw (n, d) at h) in
        inr (p.1, d, rsplit_once-some b':' host p n ∙ ap (λ (t : Text). t ++ (b':' ∷ p.1)) e)
    | inr d ↦ inl (routed_domain host (rw (n, d) at h))
  ]
]

share_port :
    (share port : Text)
    → share ++ (b'.' ∷ (proxy_domain ++ (b':' ∷ port)))
      ≡ (share ++ (b'.' ∷ proxy_domain)) ++ (b':' ∷ port)
share_port [] port = refl
share_port (c ∷ share) port = ap (◌∷◌ c) (share_port share port)

under_port :
    (app share port : Text)
    → app ++ (b'.' ∷ (share ++ (b'.' ∷ (proxy_domain ++ (b':' ∷ port)))))
      ≡ app_host app share ++ (b':' ∷ port)
under_port [] share port = ap (◌∷◌ b'.') (share_port share port)
under_port (c ∷ app) share port = ap (◌∷◌ c) (under_port app share port)

parse_host-bare :
    (app share : Text)
    → is_dns_label app ≡ true
    → is_dns_label share ≡ true
    → parse_host (app_host app share) ≡ some (app_route share app)
unfolding parse_host without_port
parse_host-bare app share a s =
    rw (rsplit_once-none b':' (app_host app share) (no_colon-app_host app share a s)) (
      rw (not_domain app share)
        (ap prefix_route (strip_host app share) ∙ prefix_route-labels app share a s))

-- Under the proxy's own host, with a port or without, the host of an app of a share, whose names are DNS
-- labels, goes to that app of that share.
pub parse_host-under :
    (app share host : Text)
    → is_dns_label app ≡ true
    → is_dns_label share ≡ true
    → parse_host host ≡ some proxy_route
    → parse_host (app ++ (b'.' ∷ (share ++ (b'.' ∷ host)))) ≡ some (app_route share app)
unfolding IsOwnHost
parse_host-under app share host a s h =
    let under : Text → Text = λ t. app ++ (b'.' ∷ (share ++ (b'.' ∷ t))) in
    elim (parse_host-IsOwnHost host h) [
      | inl e ↦ ap (λ (t : Text). parse_host (under t)) e ∙ parse_host-bare app share a s
      | inr (port, d, e) ↦
          ap (λ (t : Text). parse_host (under t)) e
          ∙ (ap parse_host (under_port app share port) ∙ parse_host-app_host app share port a s d)
    ]
