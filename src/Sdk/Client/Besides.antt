-- ===== src/Sdk/Client/Besides.antt =====
-- The tables besides the rows of one share, and the methods that a join calls for it, sdk/src/lib.rs,
-- lines 283 to 318 and 607 to 623.
use wispers_access.Prelude.{
  ==_refl, Bool, Bool-cases, Text, any, ap, delete_where, inl, inr, ok, ok-injective, refl, some,
  subst, sym, true, ℕ, ◌&&◌, ◌==◌, ◌∙◌, ◌≡◌,
}
use wispers_access.Prelude.Searches.{
  any-update_where_key, delete_where-update_where, delete_where_last, delete_where_twice,
}
use wispers_access.Sdk.Client.{read_share, label_for, record_join, shown_name}
use wispers_access.Sdk.GuestCalls.WithHost.{host}
use wispers_access.Sdk.Store.Db.{◌>>◌, PortRow, ShareRow, Tables, update_share, with_share}
use wispers_access.Sdk.Store.Hostnames.{
  set_hostname, taken_by, write_deduped_hostname, write_hostname,
}
use wispers_access.Sdk.Store.Info.{
  app_row, delete_apps, insert_app, write_info_columns, write_share_info,
}
use wispers_access.Sdk.Store.Keeps.{
  Keeps, Keeps-bind, Keeps-read_column, Keeps-statement, Keeps-total, Keeps-update_share,
}
use wispers_access.Sdk.Store.KeepsCalls.{Keeps-write_deduped_hostname, Keeps-write_share_info}
use wispers_access.Sdk.Store.Reads.{Keeps-read_share}
use wispers_access.Sdk.Store.Replaced.{insert_app-appends, of_share}
use wispers_access.Sdk.Store.Rows.{
  Json, has_share, mark_complete, share_id_of, write_display_name, write_iroh_endpoint_id,
}
use wispers_access.Wire.Share.{ShareInfo, SharedApp}

abbrev pub own_port : ℕ → PortRow → Bool
own_port id p = p.share == id

abbrev pub own : ℕ → ShareRow → Bool
own id r = r.id == id

-- The share is there, and besides its rows there are those from before.
unfoldable pub Besides : ℕ → Tables → Tables → Type 0
Besides id before t =
    (has_share id t ≡ true)
    × ((delete_where (own id) t.shares ≡ before.shares)
        × ((delete_where (of_share id) t.apps ≡ before.apps)
            × (delete_where (own_port id) t.app_ports ≡ before.app_ports)))

module _ (id : ℕ) (before : Tables) where
  with_share-Besides :
      (set : ShareRow → ShareRow) (t : Tables)
      → ((r : ShareRow) → (set r).id ≡ r.id)
      → Besides id before t
      → Besides id before (with_share id set t)
  unfolding Besides
  with_share-Besides set t same b =
      let key : (r : ShareRow) → own id (set r) ≡ own id r = λ r. ap (λ i. i == id) (same r) in
      (
        any-update_where_key (own id) (own id) set t.shares key ∙ b.0,
        (delete_where-update_where (own id) set t.shares key ∙ b.1.0, b.1.1),
      )

  set_hostname-Besides :
      (label : Text) (t t' : Tables) (u : Unit {0})
      → set_hostname id label t ≡ ok (u, t')
      → Besides id before t
      → Besides id before t'
  unfolding set_hostname
  set_hostname-Besides label t t' u h b =
      elim (Bool-cases (has_share id t && any (taken_by id label) t.shares)) [
        | inl e ↦ absurd (cc (rw (set_hostname, e) at h))
        | inr e ↦
            let k =
              ap (λ (p : Unit {0} × Tables). p.1) (ok-injective (rw (set_hostname, e) at h)) in
            subst (Besides id before) k
              (with_share-Besides (λ r. record r { hostname = some label }) t (λ r. refl) b)
      ]

  insert_app-Besides :
      (j : Json) (position : ℕ) (app : SharedApp) (t t' : Tables) (u : Unit {0})
      → insert_app (app_row j id position app) t ≡ ok (u, t')
      → Besides id before t
      → Besides id before t'
  unfolding Besides
  insert_app-Besides j position app t t' u h b =
      let row = app_row j id position app in
      subst (Besides id before) (sym (insert_app-appends row t t' h))
        (b.0, (b.1.0, (delete_where_last (of_share id) row t.apps (==_refl id) ∙ b.1.1.0, b.1.1.1)))

  Keeps-own :
      (set : ShareRow → ShareRow)
      → ((r : ShareRow) → (set r).id ≡ r.id)
      → Keeps (Besides id before) (update_share id set)
  Keeps-own set same =
      Keeps-update_share (Besides id before) id set (λ t b. with_share-Besides set t same b)

  Keeps-delete_apps : Keeps (Besides id before) (delete_apps id)
  unfolding delete_apps Besides
  Keeps-delete_apps =
      Keeps-total (Besides id before)
        (λ t. (tt, record t { apps = delete_where (of_share id) t.apps }))
        (λ t b. (b.0, (b.1.0, (delete_where_twice (of_share id) t.apps ∙ b.1.1.0, b.1.1.1))))

  pub Keeps-iroh :
      (host : Text) → Keeps (Besides id before) (write_iroh_endpoint_id id host >> share_id_of id)
  unfolding write_iroh_endpoint_id share_id_of
  Keeps-iroh host =
      Keeps-bind (Besides id before) (write_iroh_endpoint_id id host) (λ _. share_id_of id)
        (Keeps-own _ (λ r. refl))
        (λ _. Keeps-read_column (Besides id before) id (λ r. ok r.share_id))

  pub Keeps-record_join :
      (j : Json) (slugify : Text → Text) (info : ShareInfo)
      → Keeps (Besides id before) (record_join j slugify id info)
  unfolding record_join share_id_of write_display_name mark_complete write_hostname
      write_info_columns
  Keeps-record_join j slugify info =
      let P = Besides id before in
      Keeps-bind P (share_id_of id) _ (Keeps-read_column P id (λ r. ok r.share_id)) (λ share_id.
        Keeps-bind P (write_share_info j id info) _
          (Keeps-write_share_info P j id (insert_app-Besides j) (λ i. Keeps-own _ (λ r. refl))
            Keeps-delete_apps info)
          (λ _.
            Keeps-bind P (write_display_name id (shown_name info share_id)) _
              (Keeps-own _ (λ r. refl))
              (λ _.
                Keeps-bind P (write_deduped_hostname id (label_for slugify info share_id))
                  (λ _. mark_complete id >> read_share j id)
                  (Keeps-write_deduped_hostname P id
                    (λ label.
                      Keeps-statement P (set_hostname id label) (set_hostname-Besides label))
                    (label_for slugify info share_id))
                  (λ _.
                    Keeps-bind P (mark_complete id) (λ _. read_share j id) (Keeps-own _ (λ r. refl))
                      (λ _. Keeps-read_share P j id)))))
