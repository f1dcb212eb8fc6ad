-- ===== src/Sdk/Store/History.antt =====
-- The methods of sdk/src/storage.rs that write, as one type, and the stores that a client's calls
-- lead to. A call that fails leaves the caller with the store as it is then.
use wispers_access.Prelude.{
  Bool, List, Option, Text, [], any, delete_where, refl, true, ℕ, ◌==◌, ◌∷◌, ◌≡◌,
}
use wispers_access.Sdk.Store.Cascade.{
  delete_apps-IsValid, delete_shares-IsValid, insert_app-IsValid, upsert_port-IsValid,
}
use wispers_access.Sdk.Store.Constraints.{insert_share-IsValid, set_hostname-IsValid}
use wispers_access.Sdk.Store.Db.{
  ◌>>=◌, Db, M, ShareRow, Tables, delete_shares, pure, update_share, with_shares,
}
use wispers_access.Sdk.Store.Hostnames.{set_hostname, write_deduped_hostname, write_hostname}
use wispers_access.Sdk.Store.Info.{app_row, delete_apps, write_info_columns, write_share_info}
use wispers_access.Sdk.Store.Keeps.{
  Keeps, Keeps-bind, Keeps-statement, Keeps-total, Keeps-update_share,
}
use wispers_access.Sdk.Store.KeepsCalls.{Keeps-write_deduped_hostname, Keeps-write_share_info}
use wispers_access.Sdk.Store.Replaced.{of_share}
use wispers_access.Sdk.Store.Rows.{
  Json, clean_up_incomplete_rows, delete_row, differs, insert_share, is_false, mark_complete,
  new_row, upsert_port, write_app_port, write_display_name, write_forward_proxy_port,
  write_iroh_endpoint_id, write_outdated, write_terminal_state, write_wispers_connect_backend,
}
use wispers_access.Sdk.Store.Valid.{IsValid, not_false, with_shares-IsValid}
use wispers_access.Wire.Share.{ShareInfo}

pub data Op : Type 0 where
  add : Text → ℕ → Op
  display_name hostname iroh_endpoint terminal_state : ℕ → Text → Op
  backend : ℕ → Option Text → Op
  share_info : ℕ → ShareInfo → Op
  complete delete : ℕ → Op
  outdated : ℕ → Bool → Op
  app_port : ℕ → Text → ℕ → Op
  forward_proxy_port : ℕ → ℕ → Op
  sweep : Op

abbrev pub done : {A : Type 0} → M A → M (Unit {0})
done m = m >>= λ _. pure tt

unfoldable pub run : Json → Op → M (Unit {0})
unfolding new_row write_display_name write_deduped_hostname write_iroh_endpoint_id
    write_terminal_state write_wispers_connect_backend write_share_info mark_complete delete_row
    write_outdated write_app_port write_forward_proxy_port clean_up_incomplete_rows
run j (add share_id now) = done (new_row share_id now)
run j (display_name id name) = write_display_name id name
run j (hostname id label) = done (write_deduped_hostname id label)
run j (iroh_endpoint id host) = write_iroh_endpoint_id id host
run j (terminal_state id state) = write_terminal_state id state
run j (backend id b) = write_wispers_connect_backend id b
run j (share_info id info) = write_share_info j id info
run j (complete id) = mark_complete id
run j (delete id) = delete_row id
run j (outdated id o) = done (write_outdated id o)
run j (app_port id app port) = write_app_port id app port
run j (forward_proxy_port id port) = write_forward_proxy_port id port
run j sweep = clean_up_incomplete_rows

unfoldable pub run_all : Json → List Op → Db → Db
unfolding run
run_all j [] d = d
run_all j (op ∷ ops) d = run_all j ops (run j op d).1

-- The tables of a new file.
abbrev pub no_rows_yet : Tables
no_rows_yet = record { shares = []; apps = []; app_ports = []; last_id = 0 }

pub Keeps-done : {A : Type 0} (P : Tables → Type 0) (m : M A) → Keeps P m → Keeps P (done m)
Keeps-done P m k = Keeps-bind P m (λ _. pure tt) k (λ _ d h. h)

Keeps-write_hostname : (id : ℕ) (label : Text) → Keeps IsValid (write_hostname id label)
unfolding write_hostname
Keeps-write_hostname id label =
    Keeps-statement IsValid (set_hostname id label) (set_hostname-IsValid id label)

Keeps-columns :
    (id : ℕ) (set : ShareRow → ShareRow)
    → ((r : ShareRow) → (set r).id ≡ r.id)
    → ((r : ShareRow) → (set r).share_id ≡ r.share_id)
    → ((r : ShareRow) → (set r).hostname ≡ r.hostname)
    → ((r : ShareRow) → not_false r ≡ true → not_false (set r) ≡ true)
    → Keeps IsValid (update_share id set)
Keeps-columns id set a b c f =
    Keeps-update_share IsValid id set (λ t v. with_shares-IsValid (λ r. r.id == id) set t a b c f v)

Keeps-info : (j : Json) (id : ℕ) (info : ShareInfo) → Keeps IsValid (write_share_info j id info)
unfolding write_info_columns delete_apps
Keeps-info j id =
    Keeps-write_share_info IsValid j id (λ position a. insert_app-IsValid (app_row j id position a))
      (λ info. Keeps-columns id _ (λ r. refl) (λ r. refl) (λ r. refl) (λ r h. h))
      (Keeps-total IsValid (λ t. (tt, record t { apps = delete_where (of_share id) t.apps }))
        (delete_apps-IsValid (of_share id)))

run-IsValid : (j : Json) (op : Op) → Keeps IsValid (run j op)
unfolding run new_row write_display_name write_iroh_endpoint_id write_terminal_state
    write_wispers_connect_backend mark_complete delete_row write_outdated write_app_port
    write_forward_proxy_port clean_up_incomplete_rows
run-IsValid j (add share_id now) = Keeps-done IsValid (new_row share_id now) (
    Keeps-statement IsValid (insert_share share_id now)
      (λ t t' a. insert_share-IsValid share_id now t t' a))
run-IsValid j (display_name id name) =
    Keeps-columns id _ (λ r. refl) (λ r. refl) (λ r. refl) (λ r h. h)
run-IsValid j (hostname id label) =
    Keeps-done IsValid (write_deduped_hostname id label)
      (Keeps-write_deduped_hostname IsValid id (Keeps-write_hostname id) label)
run-IsValid j (iroh_endpoint id host) =
    Keeps-columns id _ (λ r. refl) (λ r. refl) (λ r. refl) (λ r h. h)
run-IsValid j (terminal_state id state) =
    Keeps-columns id _ (λ r. refl) (λ r. refl) (λ r. refl) (λ r h. h)
run-IsValid j (backend id b) = Keeps-columns id _ (λ r. refl) (λ r. refl) (λ r. refl) (λ r h. h)
run-IsValid j (share_info id info) = Keeps-info j id info
run-IsValid j (complete id) = Keeps-columns id _ (λ r. refl) (λ r. refl) (λ r. refl) (λ r h. refl)
run-IsValid j (delete id) =
    Keeps-total IsValid (λ t. (tt, delete_shares (λ r. r.id == id) t))
      (delete_shares-IsValid (λ r. r.id == id))
run-IsValid j (outdated id o) = Keeps-done IsValid (write_outdated id o) (
    Keeps-total IsValid
      (λ t. (
        any (differs id o) t.shares,
        with_shares (differs id o) (λ r. record r { outdated = o }) t,
      ))
      (λ t v.
        with_shares-IsValid (differs id o) (λ r. record r { outdated = o }) t (λ r. refl)
          (λ r. refl) (λ r. refl) (λ r h. h) v))
run-IsValid j (app_port id app port) =
    Keeps-statement IsValid (upsert_port id app port) (upsert_port-IsValid id app port)
run-IsValid j (forward_proxy_port id port) =
    Keeps-columns id _ (λ r. refl) (λ r. refl) (λ r. refl) (λ r h. h)
run-IsValid j sweep =
    Keeps-total IsValid (λ t. (tt, delete_shares (λ r. is_false r.complete) t))
      (delete_shares-IsValid (λ r. is_false r.complete))

-- Whatever a client calls, in whatever order and whichever statements fail, the tables meet the
-- constraints of the schema if they did before: no two shares have one id, share id or hostname
-- label, no app or port is left behind by a deleted share, and no `complete` is FALSE.
pub run_all-IsValid :
    (j : Json) (ops : List Op) (d : Db) → IsValid d.tables → IsValid (run_all j ops d).tables
unfolding run_all
run_all-IsValid j [] d v = v
run_all-IsValid j (op ∷ ops) d v = run_all-IsValid j ops (run j op d).1 (run-IsValid j op d v)

pub no_rows_yet-IsValid : IsValid no_rows_yet
unfolding IsValid
no_rows_yet-IsValid = (tt, (refl, (refl, ((tt, refl), (tt, refl)))))
