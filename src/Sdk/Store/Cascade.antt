-- ===== src/Sdk/Store/Cascade.antt =====
-- The rows of `apps` and `app_ports` of sdk/src/storage.rs, and what a deletion takes with it.
use wispers_access.Prelude.{
  Bool, Bool-cases, List, Text, [], all, all-append, any, ap, arith, delete_where, inl, inr, ok,
  ok-injective, refl, subst, text_eq_sym, true, ℕ, ◌&&◌, ◌==◌, ◌∙◌, ◌∷◌, ◌≡◌,
}
use wispers_access.Prelude.Distinct.{
  Distinct-append_one, Distinct-delete_where, Distinct-update_where,
}
use wispers_access.Prelude.Searches.{
  all-delete_where, all-update_where_to, any-delete_where_kept, any_swap,
}
use wispers_access.Sdk.Store.Db.{AppRow, PortRow, ShareRow, Tables, delete_shares}
use wispers_access.Sdk.Store.Info.{insert_app, same_app}
use wispers_access.Sdk.Store.Rows.{has_share, of_app, upsert_port}
use wispers_access.Sdk.Store.Valid.{IsValid, not_false, same_port, same_share, within}

same_app_sym : (a b : AppRow) → same_app a b ≡ same_app b a
same_app_sym a b = ground (arith, text_eq_sym a.app_id b.app_id)

pub insert_app-IsValid :
    (a : AppRow) (t t' : Tables) (u : Unit {0})
    → insert_app a t ≡ ok (u, t')
    → IsValid t
    → IsValid t'
unfolding insert_app IsValid
insert_app-IsValid a t t' u h v = elim (Bool-cases (has_share a.share t)) [
  | inl e ↦ elim (Bool-cases (any (same_app a) t.apps)) [
    | inl f ↦ absurd (cc (rw (insert_app, e, f) at h))
    | inr f ↦
        let k = ap (λ (p : Unit {0} × Tables). p.1) (ok-injective (rw (insert_app, e, f) at h)) in
        subst IsValid k (
          v.0,
          (
            v.1.0,
            (
              v.1.1.0,
              (
                (
                  Distinct-append_one same_app a t.apps v.1.1.1.0.0 (
                      any_swap (λ x. same_app x a) (same_app a) t.apps (λ x. same_app_sym x a) ∙ f),
                  all-append (λ (a : AppRow). has_share a.share t) t.apps (a ∷ []) v.1.1.1.0.1
                      (ground (arith, e)),
                ),
                v.1.1.1.1,
              ),
            ),
          ),
        )
  ]
  | inr e ↦ absurd (cc (rw (insert_app, e) at h))
]

pub delete_apps-IsValid :
    (p : AppRow → Bool) (t : Tables)
    → IsValid t
    → IsValid (record t { apps = delete_where p t.apps })
unfolding IsValid
delete_apps-IsValid p t v = (
  v.0,
  (
    v.1.0,
    (
      v.1.1.0,
      (
        (
          Distinct-delete_where same_app p t.apps v.1.1.1.0.0,
          all-delete_where (λ (a : AppRow). has_share a.share t) p t.apps v.1.1.1.0.1,
        ),
        v.1.1.1.1,
      ),
    ),
  ),
)

of_app-same_port :
    (id : ℕ) (app_id : Text) (port : ℕ) (p : PortRow)
    → same_port p (record { share = id; app_id = app_id; port = port }) ≡ of_app id app_id p
of_app-same_port id app_id port p = refl

pub upsert_port-IsValid :
    (id : ℕ) (app_id : Text) (port : ℕ) (t t' : Tables) (u : Unit {0})
    → upsert_port id app_id port t ≡ ok (u, t')
    → IsValid t
    → IsValid t'
unfolding upsert_port IsValid
upsert_port-IsValid id app_id port t t' u h v =
    elim (Bool-cases (any (of_app id app_id) t.app_ports)) [
      | inl e ↦
          let k = ap (λ (p : Unit {0} × Tables). p.1) (ok-injective (rw (upsert_port, e) at h)) in
          let set : PortRow → PortRow = λ p. record p { port = port } in
          subst IsValid k (
            v.0,
            (
              v.1.0,
              (
                v.1.1.0,
                (
                  v.1.1.1.0,
                  (
                    Distinct-update_where same_port set (λ a b. refl) (λ a b. refl)
                        (of_app id app_id) t.app_ports v.1.1.1.1.0,
                    all-update_where_to (λ (p : PortRow). has_share p.share t) (of_app id app_id)
                        set t.app_ports (λ p b. b) v.1.1.1.1.1,
                  ),
                ),
              ),
            ),
          )
      | inr e ↦ elim (Bool-cases (has_share id t)) [
        | inl f ↦
            let k =
              ap (λ (p : Unit {0} × Tables). p.1) (ok-injective (rw (upsert_port, e, f) at h)) in
            let row : PortRow = record { share = id; app_id = app_id; port = port } in
            subst IsValid k (
              v.0,
              (
                v.1.0,
                (
                  v.1.1.0,
                  (
                    v.1.1.1.0,
                    (
                      Distinct-append_one same_port row t.app_ports v.1.1.1.1.0 e,
                      all-append (λ (p : PortRow). has_share p.share t) t.app_ports (row ∷ [])
                          v.1.1.1.1.1 (ground (arith, f)),
                    ),
                  ),
                ),
              ),
            )
        | inr f ↦ absurd (cc (rw (upsert_port, e, f) at h))
      ]
    ]

-- A row of a share that is there and stays there.
module _ {A : Type 0} (share_of : A → ℕ) (p : ShareRow → Bool) (shares : List ShareRow) where
  abbrev cascaded : List A → List A
  cascaded rows = delete_where (λ a. any (λ (r : ShareRow). r.id == share_of a && p r) shares) rows

  all-cascaded :
      (rows : List A)
      → all (λ a. any (λ (r : ShareRow). r.id == share_of a) shares) rows ≡ true
      → all
          (λ a. any (λ (r : ShareRow). r.id == share_of a) (delete_where p shares))
          (cascaded rows)
        ≡ true
  all-cascaded [] h = refl
  all-cascaded (a ∷ rows) h =
      elim (Bool-cases (any (λ (r : ShareRow). r.id == share_of a && p r) shares)) [
        | inl e ↦ rw e (all-cascaded rows (ground arith))
        | inr e ↦
            let kept =
              any-delete_where_kept p (λ (r : ShareRow). r.id == share_of a) shares (ground arith)
                e in
            rw (e, kept) (all-cascaded rows (ground arith))
      ]

pub delete_shares-IsValid :
    (p : ShareRow → Bool) (t : Tables) → IsValid t → IsValid (delete_shares p t)
unfolding IsValid
delete_shares-IsValid p t v = (
  Distinct-delete_where same_share p t.shares v.0,
  (
    all-delete_where (within t.last_id) p t.shares v.1.0,
    (
      all-delete_where not_false p t.shares v.1.1.0,
      (
        (
          Distinct-delete_where same_app _ t.apps v.1.1.1.0.0,
          all-cascaded (λ (a : AppRow). a.share) p t.shares t.apps v.1.1.1.0.1,
        ),
        (
          Distinct-delete_where same_port _ t.app_ports v.1.1.1.1.0,
          all-cascaded (λ (a : PortRow). a.share) p t.shares t.app_ports v.1.1.1.1.1,
        ),
      ),
    ),
  ),
)
