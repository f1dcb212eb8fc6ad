-- ===== src/Sdk/Client/Leftovers.antt =====
-- What a join that fails leaves in the store, sdk/src/lib.rs, lines 283 to 318.
use wispers_access.Prelude.{
  Bool-cases, List, Result, Text, [], all, any, ap, arith, codes, delete_where, err, false, inl,
  inr, leb, ltb, ok, ok-injective, refl, subst, suc, text_eq, true, ℕ, ◌&&◌, ◌++◌, ◌==◌, ◌∙◌, ◌∷◌,
  ◌≡◌,
}
use wispers_access.Prelude.Searches.{any_never, any_swap, delete_where_last, delete_where_swap}
use wispers_access.Sdk.Client.{save_key, Device, J, Meeting, SdkError, next, stored_as}
use wispers_access.Sdk.Client.Besides.{Besides, own, own_port}
use wispers_access.Sdk.Store.Db.{
  AppRow, Db, Error, PortRow, ShareRow, Tables, next_fault, statement,
}
use wispers_access.Sdk.Store.Replaced.{of_share}
use wispers_access.Sdk.Store.Rows.{blank_share, delete_row, insert_share, max_rowid}
use wispers_access.Sdk.Store.Valid.{IsValid, within}
use wispers_access.Wire.Share.{ShareInfo}

delete_own_none :
    (last id : ℕ) (rows : List ShareRow)
    → all (within last) rows ≡ true
    → ltb last id ≡ true
    → delete_where (own id) rows ≡ rows
delete_own_none last id [] h k = refl
delete_own_none last id (r ∷ rows) h k = ground (arith, delete_own_none last id rows)

has_share_none :
    (last id : ℕ) (rows : List ShareRow)
    → all (within last) rows ≡ true
    → ltb last id ≡ true
    → any (own id) rows ≡ false
has_share_none last id [] h k = refl
has_share_none last id (r ∷ rows) h k = ground (arith, has_share_none last id rows)

-- No row refers to a share that is not there.
delete_owned_none :
    {A : Type 0} (share_of : A → ℕ) (id : ℕ) (shares : List ShareRow) (rows : List A)
    → any (own id) shares ≡ false
    → all (λ a. any (own (share_of a)) shares) rows ≡ true
    → delete_where (λ a. share_of a == id) rows ≡ rows
delete_owned_none share_of id shares [] h k = refl
delete_owned_none share_of id shares (a ∷ rows) h k = elim (Bool-cases (share_of a == id)) [
  | inl e ↦
      let same : share_of a ≡ id = ground (arith, e) in
      absurd (ground (arith, k, h, ap (λ i. any (own i) shares) same))
  | inr e ↦ rw e (ap (◌∷◌ a) (delete_owned_none share_of id shares rows h (ground arith)))
]

any_last_own :
    (id : ℕ) (r : ShareRow) (rows : List ShareRow)
    → r.id ≡ id
    → any (own id) (rows ++ r ∷ []) ≡ true
any_last_own id r [] h = rw h (ground arith)
any_last_own id r (x ∷ rows) h = ground (arith, any_last_own id r rows h)

-- A new row stands beside the rows from before.
pub insert_share-Besides :
    (share_id : Text) (now id : ℕ) (t t' : Tables)
    → IsValid t
    → insert_share share_id now t ≡ ok (id, t')
    → Besides id t t'
unfolding insert_share IsValid Besides
insert_share-Besides share_id now id t t' v h = elim (Bool-cases (leb max_rowid t.last_id)) [
  | inl e ↦ absurd (cc (rw (insert_share, e) at h))
  | inr e ↦ elim (Bool-cases (any (λ (r : ShareRow). text_eq r.share_id share_id) t.shares)) [
    | inl f ↦ absurd (cc (rw (insert_share, e, f) at h))
    | inr f ↦
        let row = blank_share (suc t.last_id) share_id now (codes "[]") in
        let k = ok-injective (rw (insert_share, e, f) at h) in
        let same : suc t.last_id ≡ id = ap (λ (p : ℕ × Tables). p.0) k in
        let above : ltb t.last_id id ≡ true = ground (arith, same) in
        let free = has_share_none t.last_id id t.shares v.1.0 above in
        let mine : (row.id == id) ≡ true = ground (arith, same) in
        subst (Besides id t) (ap (λ (p : ℕ × Tables). p.1) k) (
          any_last_own id row t.shares same,
          (
            delete_where_last (own id) row t.shares mine
                ∙ delete_own_none t.last_id id t.shares v.1.0 above,
            (
              delete_owned_none (λ (a : AppRow). a.share) id t.shares t.apps free v.1.1.1.0.1,
              delete_owned_none (λ (p : PortRow). p.share) id t.shares t.app_ports free v.1.1.1.1.1,
            ),
          ),
        )
  ]
]

both_own :
    (id i : ℕ) (shares : List ShareRow)
    → any (own id) shares ≡ true
    → any (λ (r : ShareRow). r.id == i && r.id == id) shares ≡ (i == id)
both_own id i shares h = elim (Bool-cases (i == id)) [
  | inl e ↦ rw e (any_swap _ (own id) shares (λ r. ground (arith, e)) ∙ h)
  | inr e ↦ rw e (any_never _ shares (λ r. ground (arith, e)))
]

-- The tables of a store are as they were.
unfoldable pub Restored : Tables → Tables → Type 0
Restored before t =
    (t.shares ≡ before.shares) × ((t.apps ≡ before.apps) × (t.app_ports ≡ before.app_ports))

pub delete_row-Restored :
    (id : ℕ) (before : Tables) (d : Db)
    → next_fault d.faults ≡ false
    → Besides id before d.tables
    → Restored before (delete_row id d).1.tables
unfolding delete_row statement Besides Restored
delete_row-Restored id before d f b = rw f (
  b.1.0,
  (
    delete_where_swap _ (of_share id) d.tables.apps (λ a. both_own id a.share d.tables.shares b.0)
        ∙ b.1.1.0,
    delete_where_swap _ (own_port id) d.tables.app_ports
          (λ p. both_own id p.share d.tables.shares b.0)
        ∙ b.1.1.1,
  ),
)

module _ (P : Tables → Type 0) where
  pub keeps_next :
      {A B : Type 0} (r : Result SdkError A × Device) (k : A → J B)
      → P r.1.db.tables
      → ((a : A) (d : Device) → P d.db.tables → P (k a d).1.db.tables)
      → P (next r k).1.db.tables
  keeps_next (ok a, d) k h l = l a d h
  keeps_next (err e, d) k h l = h

  pub keeps_stored_as :
      {A : Type 0} (e : SdkError) (p : Result Error A × Db) (d : Device)
      → P p.1.tables
      → P (stored_as e p d).1.db.tables
  keeps_stored_as e (ok a, db) d h = h
  keeps_stored_as e (err x, db) d h = h

  pub keeps_save_key :
      (meets : Meeting) (info : ShareInfo) (share_id : Text) (d : Device)
      → P d.db.tables
      → P (save_key meets info share_id d).1.db.tables
  unfolding save_key
  keeps_save_key meets info share_id d h = elim (Bool-cases meets.saves) [
    | inl e ↦ rw e h
    | inr e ↦ rw e h
  ]
