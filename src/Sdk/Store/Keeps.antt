-- ===== src/Sdk/Store/Keeps.antt =====
-- Methods of the store of sdk/src/storage.rs that keep a property of the tables, whichever of their
-- statements fail.
use wispers_access.Prelude.{
  Bool-cases, Result, ap, err, inl, inr, ok, ok-injective, refl, subst, ℕ, ◌≡◌,
}
use wispers_access.Sdk.Store.Db.{
  ◌>>=◌, Db, Error, M, ShareRow, Tables, after, bind_result, finish_tx, later_faults, next_fault,
  of_row, query, read_column, reading, share_with_id, statement, transaction, update_share,
  with_share,
}
use wispers_access.Sdk.Store.Outcomes.{reading-tables}

abbrev pub Keeps : {A : Type 0} → (Tables → Type 0) → M A → Type 0
Keeps P m = (d : Db) → P d.tables → P (m d).1.tables

module _ (P : Tables → Type 0) where
  Keeps-after :
      {A : Type 0} (d : Db) (r : Result Error (A × Tables))
      → P d.tables
      → ((a : A) (t : Tables) → r ≡ ok (a, t) → P t)
      → P (after d r).1.tables
  Keeps-after d (ok (a, t)) h k = k a t refl
  Keeps-after d (err e) h k = h

  pub Keeps-statement :
      {A : Type 0} (f : Tables → Result Error (A × Tables))
      → ((t t' : Tables) (a : A) → f t ≡ ok (a, t') → P t → P t')
      → Keeps P (statement f)
  unfolding statement
  Keeps-statement f k d h = elim (Bool-cases (next_fault d.faults)) [
    | inl e ↦ rw e h
    | inr e ↦ rw e (
        Keeps-after (record d { faults = later_faults d.faults }) (f d.tables) h
          (λ a t q. k d.tables t a q h))
  ]

  pub Keeps-total :
      {A : Type 0} (f : Tables → A × Tables)
      → ((t : Tables) → P t → P (f t).1)
      → Keeps P (statement (λ t. ok (f t)))
  Keeps-total f k =
      Keeps-statement (λ t. ok (f t))
        (λ t t' a e h. subst P (ap (λ (p : _ × Tables). p.1) (ok-injective e)) (k t h))

  pub Keeps-query : {A : Type 0} (f : Tables → Result Error A) → Keeps P (query f)
  unfolding query
  Keeps-query f =
      Keeps-statement (λ t. reading t (f t))
        (λ t t' a e h. subst P (reading-tables t t' (f t) a e) h)

  pub Keeps-read_column :
      {A : Type 0} (id : ℕ) (f : ShareRow → Result Error A) → Keeps P (read_column id f)
  unfolding read_column
  Keeps-read_column id f = Keeps-query (λ t. of_row (share_with_id id t) f)

  pub Keeps-update_share :
      (id : ℕ) (set : ShareRow → ShareRow)
      → ((t : Tables) → P t → P (with_share id set t))
      → Keeps P (update_share id set)
  unfolding update_share
  Keeps-update_share id set k = Keeps-total (λ t. (tt, with_share id set t)) k

  Keeps-bound :
      {A B : Type 0} (p : Result Error A × Db) (f : A → M B)
      → ((a : A) → Keeps P (f a))
      → P p.1.tables
      → P (bind_result p.0 f p.1).1.tables
  Keeps-bound (ok a, d) f k h = k a d h
  Keeps-bound (err e, d) f k h = h

  pub Keeps-bind :
      {A B : Type 0} (m : M A) (f : A → M B)
      → Keeps P m
      → ((a : A) → Keeps P (f a))
      → Keeps P (m >>= f)
  Keeps-bind m f k l d h = Keeps-bound (m d) f l (k d h)

  Keeps-finish_tx :
      {A : Type 0} (before : Tables) (r : Result Error A) → P before → Keeps P (finish_tx before r)
  Keeps-finish_tx before (err e) b d h = b
  Keeps-finish_tx before (ok a) b d h = elim (Bool-cases (next_fault d.faults)) [
    | inl e ↦ rw e b
    | inr e ↦ rw e h
  ]

  pub Keeps-transaction : {A : Type 0} (body : M A) → Keeps P body → Keeps P (transaction body)
  unfolding transaction
  Keeps-transaction body k =
      Keeps-bind (statement (λ t. ok (tt, t))) (λ _ d. finish_tx d.tables (body d).0 (body d).1)
        (Keeps-total (λ t. (tt, t)) (λ t h. h))
        (λ _ d h. Keeps-finish_tx d.tables (body d).0 h (body d).1 (k d h))
