-- ===== src/Sdk/Store/Fresh.antt =====
-- The row ids that `new_row` of sdk/src/storage.rs, lines 61 to 77, gives.
use wispers_access.Sdk.Store.History.{Op, run, run_all, Keeps-done}
use wispers_access.Prelude.{
  Bool-cases, List, Text, [], any, ap, arith, delete_where, find, inl, inr, leb, ltb, ok,
  ok-injective, some, suc, sym, text_eq, true, ℕ, ◌&&◌, ◌==◌, ◌∙◌, ◌∷◌, ◌≡◌,
}
use wispers_access.Prelude.Searches.{all-find}
use wispers_access.Sdk.Store.Db.{
  AppRow, Db, ShareRow, Tables, delete_shares, update_share, with_shares,
}
use wispers_access.Sdk.Store.Hostnames.{
  set_hostname, taken_by, write_deduped_hostname, write_hostname,
}
use wispers_access.Sdk.Store.Info.{
  app_row, delete_apps, insert_app, same_app, write_info_columns, write_share_info,
}
use wispers_access.Sdk.Store.Keeps.{Keeps, Keeps-statement, Keeps-total, Keeps-update_share}
use wispers_access.Sdk.Store.KeepsCalls.{Keeps-write_deduped_hostname, Keeps-write_share_info}
use wispers_access.Sdk.Store.Outcomes.{statement-ok}
use wispers_access.Sdk.Store.Replaced.{of_share}
use wispers_access.Sdk.Store.Rows.{
  Json, clean_up_incomplete_rows, delete_row, differs, has_share, insert_share, is_false,
  mark_complete, max_rowid, new_row, of_app, upsert_port, write_app_port, write_display_name,
  write_forward_proxy_port, write_iroh_endpoint_id, write_outdated, write_terminal_state,
  write_wispers_connect_backend,
}
use wispers_access.Sdk.Store.Valid.{IsValid, within}
use wispers_access.Wire.Share.{ShareInfo}

abbrev Counts : ℕ → Tables → Type 0
Counts n t = leb n t.last_id ≡ true

insert_share-counts :
    (n : ℕ) (share_id : Text) (now : ℕ) (t t' : Tables) (id : ℕ)
    → insert_share share_id now t ≡ ok (id, t')
    → (id ≡ suc t.last_id) × (t'.last_id ≡ id)
unfolding insert_share
insert_share-counts n share_id now t t' id h = elim (Bool-cases (leb max_rowid t.last_id)) [
  | inl e ↦ absurd (cc (rw (insert_share, e) at h))
  | inr e ↦ elim (Bool-cases (any (λ (r : ShareRow). text_eq r.share_id share_id) t.shares)) [
    | inl f ↦ absurd (cc (rw (insert_share, e, f) at h))
    | inr f ↦
        let k = ok-injective (rw (insert_share, e, f) at h) in
        let a = ap (λ (p : ℕ × Tables). p.0) k in
        (sym a, sym (ap (λ (p : ℕ × Tables). p.1.last_id) k) ∙ a)
  ]
]

set_hostname-Counts :
    (n id : ℕ) (label : Text) (t t' : Tables) (u : Unit {0})
    → set_hostname id label t ≡ ok (u, t')
    → Counts n t
    → Counts n t'
unfolding set_hostname
set_hostname-Counts n id label t t' u h v =
    elim (Bool-cases (has_share id t && any (taken_by id label) t.shares)) [
      | inl e ↦ absurd (cc (rw (set_hostname, e) at h))
      | inr e ↦
          let k =
            ap (λ (p : Unit {0} × Tables). p.1.last_id)
              (ok-injective (rw (set_hostname, e) at h)) in
          rw (sym k) v
    ]

insert_app-Counts :
    (n : ℕ) (a : AppRow) (t t' : Tables) (u : Unit {0})
    → insert_app a t ≡ ok (u, t')
    → Counts n t
    → Counts n t'
unfolding insert_app
insert_app-Counts n a t t' u h v = elim (Bool-cases (has_share a.share t)) [
  | inl e ↦ elim (Bool-cases (any (same_app a) t.apps)) [
    | inl f ↦ absurd (cc (rw (insert_app, e, f) at h))
    | inr f ↦
        let k =
          ap (λ (p : Unit {0} × Tables). p.1.last_id) (ok-injective (rw (insert_app, e, f) at h)) in
        rw (sym k) v
  ]
  | inr e ↦ absurd (cc (rw (insert_app, e) at h))
]

upsert_port-Counts :
    (n id : ℕ) (app_id : Text) (port : ℕ) (t t' : Tables) (u : Unit {0})
    → upsert_port id app_id port t ≡ ok (u, t')
    → Counts n t
    → Counts n t'
unfolding upsert_port
upsert_port-Counts n id app_id port t t' u h v =
    elim (Bool-cases (any (of_app id app_id) t.app_ports)) [
      | inl e ↦
          let k =
            ap (λ (p : Unit {0} × Tables). p.1.last_id) (ok-injective (rw (upsert_port, e) at h)) in
          rw (sym k) v
      | inr e ↦ elim (Bool-cases (has_share id t)) [
        | inl f ↦
            let k =
              ap (λ (p : Unit {0} × Tables). p.1.last_id)
                (ok-injective (rw (upsert_port, e, f) at h)) in
            rw (sym k) v
        | inr f ↦ absurd (cc (rw (upsert_port, e, f) at h))
      ]
    ]

module _ (n : ℕ) where
  Keeps-columns : (id : ℕ) (set : ShareRow → ShareRow) → Keeps (Counts n) (update_share id set)
  Keeps-columns id set = Keeps-update_share (Counts n) id set (λ t v. v)

  Keeps-info :
      (j : Json) (id : ℕ) (info : ShareInfo) → Keeps (Counts n) (write_share_info j id info)
  unfolding write_info_columns delete_apps
  Keeps-info j id =
      Keeps-write_share_info (Counts n) j id
        (λ position a. insert_app-Counts n (app_row j id position a)) (λ info. Keeps-columns id _)
        (Keeps-total (Counts n) (λ t. (tt, record t { apps = delete_where (of_share id) t.apps }))
          (λ t v. v))

  run-Counts : (j : Json) (op : Op) → Keeps (Counts n) (run j op)
  unfolding run new_row write_display_name write_iroh_endpoint_id write_terminal_state
      write_wispers_connect_backend mark_complete delete_row write_outdated write_app_port
      write_forward_proxy_port clean_up_incomplete_rows write_hostname
  run-Counts j (Op.add share_id now) = Keeps-done (Counts n) (new_row share_id now) (
      Keeps-statement (Counts n) (insert_share share_id now) (λ t t' a e v.
        let (x, y) = insert_share-counts n share_id now t t' a e in ground (arith, x, y)))
  run-Counts j (Op.display_name id name) = Keeps-columns id _
  run-Counts j (Op.hostname id label) = Keeps-done (Counts n) (write_deduped_hostname id label) (
      Keeps-write_deduped_hostname (Counts n) id
        (λ label.
          Keeps-statement (Counts n) (set_hostname id label) (set_hostname-Counts n id label))
        label)
  run-Counts j (Op.iroh_endpoint id host) = Keeps-columns id _
  run-Counts j (Op.terminal_state id state) = Keeps-columns id _
  run-Counts j (Op.backend id b) = Keeps-columns id _
  run-Counts j (Op.share_info id info) = Keeps-info j id info
  run-Counts j (Op.complete id) = Keeps-columns id _
  run-Counts j (Op.delete id) =
      Keeps-total (Counts n) (λ t. (tt, delete_shares (λ r. r.id == id) t)) (λ t v. v)
  run-Counts j (Op.outdated id o) = Keeps-done (Counts n) (write_outdated id o) (
      Keeps-total (Counts n)
        (λ t. (
          any (differs id o) t.shares,
          with_shares (differs id o) (λ r. record r { outdated = o }) t,
        ))
        (λ t v. v))
  run-Counts j (Op.app_port id app port) =
      Keeps-statement (Counts n) (upsert_port id app port) (upsert_port-Counts n id app port)
  run-Counts j (Op.forward_proxy_port id port) = Keeps-columns id _
  run-Counts j Op.sweep =
      Keeps-total (Counts n) (λ t. (tt, delete_shares (λ r. is_false r.complete) t)) (λ t v. v)

  run_all-Counts :
      (j : Json) (ops : List Op) (d : Db) → Counts n d.tables → Counts n (run_all j ops d).tables
  unfolding run_all
  run_all-Counts j [] d v = v
  run_all-Counts j (op ∷ ops) d v = run_all-Counts j ops (run j op d).1 (run-Counts j op d v)

-- The id of a new row is not one that a share had, however many calls came between and even if the
-- share was deleted, so that a `Row` of a share that is gone never names another share.
pub new_row-fresh :
    (j : Json) (ops : List Op) (d d' : Db) (r : ShareRow) (id : ℕ) (share_id : Text) (now : ℕ)
    → IsValid d.tables
    → find (λ (x : ShareRow). x.id == r.id) d.tables.shares ≡ some r
    → new_row share_id now (run_all j ops d) ≡ (ok id, d')
    → ltb r.id id ≡ true
unfolding new_row IsValid
new_row-fresh j ops d d' r id share_id now v f h =
    let last = (run_all j ops d).tables.last_id in
    let bound = all-find _ (within d.tables.last_id) r d.tables.shares v.1.0 f in
    let counted = run_all-Counts r.id j ops d bound in
    let given =
      (insert_share-counts r.id share_id now (run_all j ops d).tables d'.tables id
        (statement-ok (insert_share share_id now) (run_all j ops d) d' id h)).0 in
    ground (arith, counted, given)
