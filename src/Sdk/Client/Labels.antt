-- ===== src/Sdk/Client/Labels.antt =====
-- `host_slug` and `record_join` of sdk/src/lib.rs, lines 607 to 623 and 728 to 737: the labels of
-- shares as host names, which sdk/src/reverse_proxy.rs, lines 410 to 413, tests.
use wispers_access.Host.Config.Names.{is_blank}
use wispers_access.Prelude.{
  Bool, Bool-cases, Option-cases, Text, [], all, all-append, arith, byte_len, delete_where, false,
  inl, inr, leb, length, ok, ok-injective, refl, some, subst, suc, sym, take, true, utf8_len, zero,
  ℕ, ◌%◌, ◌++◌, ◌+◌, ◌/◌, ◌==◌, ◌∙◌, ◌∷◌, ◌≡◌,
}
use wispers_access.Prelude.Decimals.{decimal_digits, to_decimal}
use wispers_access.Sdk.Client.{host_slug, is_apostrophe, label_for, shown_name, trim_dashes}
use wispers_access.Sdk.Proxy.{is_dns_label, is_label_char}
use wispers_access.Sdk.Store.Db.{Db, ShareRow, share_with_id}
use wispers_access.Sdk.Store.Hostnames.{candidate, write_deduped_hostname}
use wispers_access.Sdk.Store.Hostnames.Claims.{ComesFrom, write_deduped_hostname-Claims}
use wispers_access.Wire.Share.{ShareInfo}

-- What the `slug` crate promises of a slug: ASCII letters, digits and dashes.
abbrev pub SlugsAreLabels : (Text → Text) → Type 0
SlugsAreLabels slugify = (s : Text) → all is_label_char (slugify s) ≡ true

leb_trans : (a b c : ℕ) → leb a b ≡ true → leb b c ≡ true → leb a c ≡ true
leb_trans a b c h k = ground arith

all-take : (p : ℕ → Bool) (n : ℕ) (s : Text) → all p s ≡ true → all p (take n s) ≡ true
all-take p zero s h = refl
all-take p (suc n) [] h = refl
all-take p (suc n) (c ∷ s) h = ground (arith, all-take p n s)

length-take_most : (n : ℕ) (s : Text) → leb (length (take n s)) n ≡ true
length-take_most zero s = refl
length-take_most (suc n) [] = ground arith
length-take_most (suc n) (c ∷ s) = ground (arith, length-take_most n s)

all-trim_dashes : (p : ℕ → Bool) (s : Text) → all p s ≡ true → all p (trim_dashes s) ≡ true
unfolding trim_dashes
all-trim_dashes p [] h = refl
all-trim_dashes p (c ∷ s) h = ground (arith, all-trim_dashes p s)

length-trim_dashes : (s : Text) → leb (length (trim_dashes s)) (length s) ≡ true
unfolding trim_dashes
length-trim_dashes [] = refl
length-trim_dashes (c ∷ s) = ground (arith, length-trim_dashes s)

-- Each character of a label takes one byte.
byte_len-label : (s : Text) → all is_label_char s ≡ true → byte_len s ≡ length s
unfolding byte_len utf8_len is_label_char
byte_len-label [] h = refl
byte_len-label (c ∷ s) h = ground (arith, byte_len-label s)

all-decimal_digits :
    (fuel n : ℕ) (acc : Text)
    → all is_label_char acc ≡ true
    → all is_label_char (decimal_digits fuel n acc) ≡ true
unfolding decimal_digits is_label_char
all-decimal_digits zero n acc h = ground (arith, h)
all-decimal_digits (suc fuel) n acc h =
    ground (arith, h, all-decimal_digits fuel (n / 10) ((48 + n % 10) ∷ acc))

host_slug-IsDnsLabel :
    (slugify : Text → Text) (name s : Text)
    → SlugsAreLabels slugify
    → host_slug slugify name ≡ some s
    → is_dns_label s ≡ true
unfolding host_slug is_dns_label
host_slug-IsDnsLabel slugify name s labels h =
    let slug = slugify (delete_where is_apostrophe name) in
    let cut = take 63 slug in
    let chars = all-trim_dashes is_label_char cut (all-take is_label_char 63 slug (labels _)) in
    let short : leb (length (trim_dashes cut)) 63 ≡ true =
      leb_trans (length (trim_dashes cut)) (length cut) 63 (length-trim_dashes cut)
        (length-take_most 63 slug) in
    elim (Bool-cases (is_blank (trim_dashes cut))) [
      | inl e ↦ absurd (cc (rw (host_slug, e) at h))
      | inr e ↦
          let k : trim_dashes cut ≡ s = cc (rw (host_slug, e) at h) in
          subst (λ t. is_dns_label t ≡ true) k
            (rw (is_dns_label, e, chars, byte_len-label (trim_dashes cut) chars)
              (ground (arith, short)))
    ]

is_blank-append : (s t : Text) → is_blank s ≡ false → is_blank (s ++ t) ≡ false
is_blank-append [] t h = absurd (cc h)
is_blank-append (c ∷ s) t h = refl

candidate-IsDnsLabel :
    (name : Text) (n : ℕ)
    → is_dns_label name ≡ true
    → leb (byte_len (candidate name n)) 63 ≡ true
    → is_dns_label (candidate name n) ≡ true
unfolding candidate is_dns_label to_decimal
candidate-IsDnsLabel name n h b = elim (Bool-cases (n == 1)) [
  | inl e ↦ rw (candidate, e) h
  | inr e ↦
      let chars =
        all-append is_label_char name (b'-' ∷ to_decimal n) (ground (arith, h))
          (all-decimal_digits n n [] refl) in
      let c : candidate name n ≡ name ++ (b'-' ∷ to_decimal n) = rw (candidate, e) refl in
      ground (
        arith,
        subst (λ (t : Text). all is_label_char t ≡ true) (sym c) chars,
        subst (λ (t : Text). is_blank t ≡ false) (sym c)
            (is_blank-append name (b'-' ∷ to_decimal n) (ground (arith, h))),
        b,
      )
]

label_for-dns :
    (slugify : Text → Text) (info : ShareInfo) (share_id : Text)
    → SlugsAreLabels slugify
    → is_dns_label share_id ≡ true
    → is_dns_label (label_for slugify info share_id) ≡ true
unfolding label_for
label_for-dns slugify info share_id labels s =
    elim (Option-cases (host_slug slugify (shown_name info share_id))) [
      | inl e ↦ rw (label_for, e) s
      | inr (t, e) ↦
          rw (label_for, e) (host_slug-IsDnsLabel slugify (shown_name info share_id) t labels e)
    ]

-- The label of a share whose id is a DNS label, under a name from the host, is a DNS label of at most 63
-- bytes as the loopback proxy tests it, whatever the name is and whichever labels are taken, if
-- slugs are of ASCII letters, digits and dashes.
pub label_for-IsDnsLabel :
    (slugify : Text → Text) (info : ShareInfo) (id : ℕ) (r : ShareRow) (label : Text) (d d' : Db)
    → SlugsAreLabels slugify
    → share_with_id id d.tables ≡ ok r
    → is_dns_label r.share_id ≡ true
    → write_deduped_hostname id (label_for slugify info r.share_id) d ≡ (ok (some label), d')
    → is_dns_label label ≡ true
unfolding ComesFrom label_for
label_for-IsDnsLabel slugify info id r label d d' labels f s h =
    let name = label_for slugify info r.share_id in
    elim ((write_deduped_hostname-Claims id name label d d' h).1) [
      | inl (k, (t, (e, b))) ↦ rw e (
          candidate-IsDnsLabel name (1 + k) (label_for-dns slugify info r.share_id labels s)
            (subst (λ (l : Text). leb (byte_len l) 63 ≡ true) e b))
      | inr (x, g, e) ↦ let k : x ≡ r = ok-injective (sym g ∙ f) in rw (e, k) s
    ]
