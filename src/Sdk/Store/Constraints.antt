-- ===== src/Sdk/Store/Constraints.antt =====
-- The statements of sdk/src/storage.rs that insert and delete rows or claim a hostname, and the
-- constraints of the schema.
use wispers_access.Prelude.{
  Bool-cases, List, Option, Text, [], all, all-append, any, ap, arith, codes, false, if◌then◌else◌,
  inl, inr, leb, none, ok, ok-injective, refl, some, subst, suc, sym, text_eq, text_eq_sym, true,
  update_where, ℕ, ◌&&◌, ◌==◌, ◌∙◌, ◌∷◌, ◌≡◌,
}
use wispers_access.Prelude.Distinct.{Distinct, Distinct-append_one}
use wispers_access.Prelude.Searches.{all_implies, any-append_left, update_where_none}
use wispers_access.Sdk.Store.Db.{ShareRow, Tables, with_share}
use wispers_access.Sdk.Store.Hostnames.{set_hostname, taken_by}
use wispers_access.Sdk.Store.Rows.{blank_share, has_share, insert_share, is_text, max_rowid}
use wispers_access.Sdk.Store.Valid.{
  IsValid, not_false, same_hostname, same_share, with_shares-IsValid_of, within,
}

module _ (id : ℕ) (label : Text) where
  abbrev named_one : ShareRow → ShareRow
  named_one r = if r.id == id then record r { hostname = some label } else r

  hostname_left : (o : Option Text) → is_text label o ≡ false → same_hostname (some label) o ≡ false
  hostname_left none h = refl
  hostname_left (some s) h = text_eq_sym label s ∙ h

  hostname_right :
      (o : Option Text) → is_text label o ≡ false → same_hostname o (some label) ≡ false
  hostname_right none h = refl
  hostname_right (some s) h = h

  same_share-named_one :
      (a b : ShareRow)
      → same_share a b ≡ false
      → taken_by id label a ≡ false
      → taken_by id label b ≡ false
      → same_share (named_one a) (named_one b) ≡ false
  same_share-named_one a b s ta tb = elim (Bool-cases (a.id == id)) [
    | inl e ↦ elim (Bool-cases (b.id == id)) [
      | inl f ↦ absurd (ground (arith, e, f, s))
      | inr f ↦ rw (e, f) (ground (arith, hostname_left b.hostname))
    ]
    | inr e ↦ elim (Bool-cases (b.id == id)) [
      | inl f ↦ rw (e, f) (ground (arith, hostname_right a.hostname))
      | inr f ↦ rw (e, f) s
    ]
  ]

  any-named_one :
      (a : ShareRow) (rows : List ShareRow)
      → any (same_share a) rows ≡ false
      → taken_by id label a ≡ false
      → any (taken_by id label) rows ≡ false
      → any (same_share (named_one a)) (
          update_where
            (λ (r : ShareRow). r.id == id)
            (λ r. record r { hostname = some label })
            rows)
        ≡ false
  any-named_one a [] s ta tb = refl
  any-named_one a (b ∷ rows) s ta tb =
      ground (arith, same_share-named_one a b, any-named_one a rows)

  Distinct-named :
      (rows : List ShareRow)
      → Distinct same_share rows
      → any (taken_by id label) rows ≡ false
      → Distinct same_share (
          update_where
            (λ (r : ShareRow). r.id == id)
            (λ r. record r { hostname = some label })
            rows)
  Distinct-named [] d h = tt
  Distinct-named (a ∷ rows) d h = (
    any-named_one a rows d.0 (ground arith) (ground arith),
    Distinct-named rows d.1 (ground arith),
  )

pub set_hostname-IsValid :
    (id : ℕ) (label : Text) (t t' : Tables) (u : Unit {0})
    → set_hostname id label t ≡ ok (u, t')
    → IsValid t
    → IsValid t'
unfolding set_hostname IsValid
set_hostname-IsValid id label t t' u h v =
    let set : ShareRow → ShareRow = λ r. record r { hostname = some label } in
    elim (Bool-cases (has_share id t && any (taken_by id label) t.shares)) [
      | inl e ↦ absurd (cc (rw (set_hostname, e) at h))
      | inr e ↦
          let k : with_share id set t ≡ t' =
            ap (λ (p : Unit {0} × Tables). p.1) (ok-injective (rw (set_hostname, e) at h)) in
          let distinct : Distinct same_share (with_share id set t).shares =
            elim (Bool-cases (has_share id t)) [
              | inl f ↦ Distinct-named id label t.shares v.0 (ground (arith, e, f))
              | inr f ↦
                  subst (Distinct same_share)
                    (sym (update_where_none (λ (r : ShareRow). r.id == id) set t.shares f)) v.0
            ] in
          subst IsValid k
            (with_shares-IsValid_of (λ r. r.id == id) set t distinct (λ r. refl) (λ r h. h) v)
    ]

no_hostname : (o : Option Text) → same_hostname o none ≡ false
no_hostname none = refl
no_hostname (some s) = refl

-- A new row: its id is above every id, its share id is free and it has no hostname.
any-blank_share :
    (last now : ℕ) (share_id json : Text) (rows : List ShareRow)
    → all (within last) rows ≡ true
    → any (λ (r : ShareRow). text_eq r.share_id share_id) rows ≡ false
    → any (λ r. same_share r (blank_share (suc last) share_id now json)) rows ≡ false
any-blank_share last now share_id json [] h k = refl
any-blank_share last now share_id json (r ∷ rows) h k =
    ground (arith, no_hostname r.hostname, any-blank_share last now share_id json rows)

pub insert_share-IsValid :
    (share_id : Text) (now : ℕ) (t t' : Tables) (id : ℕ)
    → insert_share share_id now t ≡ ok (id, t')
    → IsValid t
    → IsValid t'
unfolding insert_share IsValid
insert_share-IsValid share_id now t t' id h v = elim (Bool-cases (leb max_rowid t.last_id)) [
  | inl e ↦ absurd (cc (rw (insert_share, e) at h))
  | inr e ↦ elim (Bool-cases (any (λ (r : ShareRow). text_eq r.share_id share_id) t.shares)) [
    | inl f ↦ absurd (cc (rw (insert_share, e, f) at h))
    | inr f ↦
        let row = blank_share (suc t.last_id) share_id now (codes "[]") in
        let k = ap (λ (p : ℕ × Tables). p.1) (ok-injective (rw (insert_share, e, f) at h)) in
        subst IsValid k (
          Distinct-append_one same_share row t.shares v.0
              (any-blank_share t.last_id now share_id (codes "[]") t.shares v.1.0 f),
          (
            all-append (within (suc t.last_id)) t.shares (row ∷ [])
                (all_implies (within t.last_id) (within (suc t.last_id)) t.shares
                  (λ r b. ground arith) v.1.0)
                (ground arith),
            (
              all-append not_false t.shares (row ∷ []) v.1.1.0 refl,
              (
                (
                  v.1.1.1.0.0,
                  all_implies _ _ t.apps (λ a b. any-append_left _ t.shares (row ∷ []) b)
                      v.1.1.1.0.1,
                ),
                (
                  v.1.1.1.1.0,
                  all_implies _ _ t.app_ports (λ a b. any-append_left _ t.shares (row ∷ []) b)
                      v.1.1.1.1.1,
                ),
              ),
            ),
          ),
        )
  ]
]
