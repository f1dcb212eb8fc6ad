-- ===== src/Sdk/Store/Replaced.antt =====
-- `write_share_info` of sdk/src/storage.rs, lines 242 to 275, and the reads of what it wrote.
use wispers_access.Prelude.{
  ==_refl, Bool, Bool-cases, List, Result, [], any, ap, append-nil, append_assoc, arith,
  delete_where, inl, inr, map, ok, ok-injective, refl, select, suc, sym, ℕ, ◌++◌, ◌==◌, ◌∙◌, ◌∷◌,
  ◌≡◌,
}
use wispers_access.Sdk.Store.Db.{AppRow, Db, Error, Tables, statement}
use wispers_access.Sdk.Store.Info.{
  app_of_row, app_row, insert_app, insert_apps, insert_by_position, order_by_position, same_app,
}
use wispers_access.Sdk.Store.Outcomes.{bind-ok, statement-ok}
use wispers_access.Sdk.Store.Rows.{Json, ReadsBack, has_share}
use wispers_access.Wire.Share.{
  SharedApp, kind_str, mode_str, parse_or_web-kind_str, parse_proxy_mode-mode_str,
}

-- The rows of one share.
abbrev pub of_share : ℕ → AppRow → Bool
of_share id a = a.share == id

unfoldable pub app_rows : Json → ℕ → ℕ → List SharedApp → List AppRow
unfolding kind_str mode_str
app_rows j id position [] = []
app_rows j id position (a ∷ apps) = app_row j id position a ∷ app_rows j id (suc position) apps

pub select-deleted :
    (id : ℕ) (rows : List AppRow) → select (of_share id) (delete_where (of_share id) rows) ≡ []
select-deleted id [] = refl
select-deleted id (a ∷ rows) = ground (arith, select-deleted id rows)

pub select-append :
    (id : ℕ) (xs ys : List AppRow)
    → select (of_share id) (xs ++ ys) ≡ select (of_share id) xs ++ select (of_share id) ys
select-append id [] ys = refl
select-append id (x ∷ xs) ys = ground (arith, select-append id xs ys)

pub select-app_rows :
    (j : Json) (id position : ℕ) (apps : List SharedApp)
    → select (of_share id) (app_rows j id position apps) ≡ app_rows j id position apps
unfolding app_rows
select-app_rows j id position [] = refl
select-app_rows j id position (a ∷ apps) = rw (==_refl id, select-app_rows j id (suc position) apps)

pub order-app_rows :
    (j : Json) (id position : ℕ) (apps : List SharedApp)
    → order_by_position (app_rows j id position apps) ≡ app_rows j id position apps
unfolding order_by_position app_rows insert_by_position
order-app_rows j id position [] = refl
order-app_rows j id position (a ∷ []) = refl
order-app_rows j id position (a ∷ b ∷ apps) =
    rw (order_by_position, order-app_rows j id (suc position) (b ∷ apps)) (ground arith)

app_of_row-app_row :
    (j : Json) (back : ReadsBack j) (id position : ℕ) (a : SharedApp)
    → app_of_row j (app_row j id position a) ≡ a
unfolding app_of_row
app_of_row-app_row j back id position a =
    rw (back a.proxied_origins, parse_or_web-kind_str a.kind, parse_proxy_mode-mode_str a.mode)

pub map-app_rows :
    (j : Json) (back : ReadsBack j) (id position : ℕ) (apps : List SharedApp)
    → map (app_of_row j) (app_rows j id position apps) ≡ apps
unfolding app_rows
map-app_rows j back id position [] = refl
map-app_rows j back id position (a ∷ apps) =
    rw (app_of_row-app_row j back id position a, map-app_rows j back id (suc position) apps)

pub insert_app-appends :
    (a : AppRow) (t t' : Tables)
    → insert_app a t ≡ ok (tt, t')
    → t' ≡ record t { apps = t.apps ++ (a ∷ []) }
unfolding insert_app
insert_app-appends a t t' h = elim (Bool-cases (has_share a.share t)) [
  | inl e ↦ elim (Bool-cases (any (same_app a) t.apps)) [
    | inl f ↦ absurd (cc (rw (e, f) at h))
    | inr f ↦ sym (ap (λ (p : Unit {0} × Tables). p.1) (ok-injective (rw (e, f) at h)))
  ]
  | inr e ↦ absurd (cc (rw e at h))
]

pub insert_apps-appends :
    (j : Json) (id position : ℕ) (apps : List SharedApp) (d d' : Db)
    → insert_apps j id position apps d ≡ (ok tt, d')
    → d'.tables ≡ record d.tables { apps = d.tables.apps ++ app_rows j id position apps }
unfolding insert_apps app_rows
insert_apps-appends j id position [] d d' h =
    sym (ap (λ (p : Result Error (Unit {0}) × Db). p.1.tables) h)
    ∙ ap (λ l. record d.tables { apps = l }) (sym (append-nil d.tables.apps))
insert_apps-appends j id position (a ∷ apps) d d' h =
    let row = app_row j id position a in
    let (u, (d1, (e, k))) =
      bind-ok (statement (insert_app row)) (λ _. insert_apps j id (suc position) apps) d h in
    let one = insert_app-appends row d.tables d1.tables (statement-ok (insert_app row) d d1 tt e) in
    insert_apps-appends j id (suc position) apps d1 d' k
    ∙ (ap (λ (t : Tables). record t { apps = t.apps ++ app_rows j id (suc position) apps }) one
        ∙ ap (λ l. record d.tables { apps = l })
            (append_assoc d.tables.apps (row ∷ []) (app_rows j id (suc position) apps)))
