-- ===== src/Sdk/Store/Outcomes.antt =====
-- What a method of the store of sdk/src/storage.rs that succeeded or failed did to the tables.
use wispers_access.Prelude.{
  Bool-cases, Result, [], ap, err, find, inl, inr, ok, ok-injective, ok_or, refl, some, sym, ℕ,
  ◌==◌, ◌∙◌, ◌≡◌,
}
use wispers_access.Sdk.Store.Db.{
  ◌>>=◌, Db, Error, M, ShareRow, Tables, after, answer, bind_result, finish_tx, later_faults,
  next_fault, no_rows, of_row, query, read_column, reading, share_with_id, statement, transaction,
  update_share, with_faults, with_share,
}

bound_pair :
    {A B : Type 0} (p : Result Error A × Db) (f : A → M B) {b : B} {d' : Db}
    → bind_result p.0 f p.1 ≡ (ok b, d')
    → (a : A) × ((d : Db) × ((p ≡ (ok a, d)) × (f a d ≡ (ok b, d'))))
bound_pair (ok a, d) f h = (a, (d, (refl, h)))
bound_pair (err e, d) f h = absurd (cc h)

-- A chain that succeeds has two parts that succeed.
pub bind-ok :
    {A B : Type 0} (m : M A) (f : A → M B) (d : Db) {b : B} {d' : Db}
    → (m >>= f) d ≡ (ok b, d')
    → (a : A) × ((d1 : Db) × ((m d ≡ (ok a, d1)) × (f a d1 ≡ (ok b, d'))))
bind-ok m f d h = bound_pair (m d) f h

pub pair_eq : {A : Type 0} (p : A × Db) {a : A} → p.0 ≡ a → p ≡ (a, p.1)
pair_eq (x, d) h = ap (λ y. (y, d)) h

query-ok_answered :
    {A : Type 0} (r : Result Error A) (d d' : Db) (a : A)
    → after (record d { faults = later_faults d.faults }) (reading d.tables r) ≡ (ok a, d')
    → (d'.tables ≡ d.tables) × (r ≡ ok a)
query-ok_answered (ok b) d d' a h =
    (sym (ap (λ (p : Result Error _ × Db). p.1.tables) h), ap (λ (p : Result Error _ × Db). p.0) h)
query-ok_answered (err e) d d' a h = absurd (cc h)

-- A SELECT that succeeds leaves the tables alone.
pub query-ok :
    {A : Type 0} (f : Tables → Result Error A) (d d' : Db) (a : A)
    → query f d ≡ (ok a, d')
    → (d'.tables ≡ d.tables) × (f d.tables ≡ ok a)
unfolding query statement
query-ok f d d' a h = elim (Bool-cases (next_fault d.faults)) [
  | inl e ↦ absurd (cc (rw e at h))
  | inr e ↦ query-ok_answered (f d.tables) d d' a (rw e at h)
]

of_row-ok :
    {A : Type 0} (m : Result Error ShareRow) (f : ShareRow → Result Error A) {a : A}
    → of_row m f ≡ ok a
    → (r : ShareRow) × ((m ≡ ok r) × (f r ≡ ok a))
of_row-ok (ok r) f h = (r, (refl, h))
of_row-ok (err e) f h = absurd (cc h)

pub read_column-ok :
    {A : Type 0} (id : ℕ) (f : ShareRow → Result Error A) (d d' : Db) (a : A)
    → read_column id f d ≡ (ok a, d')
    → (d'.tables ≡ d.tables)
      × ((r : ShareRow) × ((share_with_id id d.tables ≡ ok r) × (f r ≡ ok a)))
unfolding read_column
read_column-ok id f d d' a h =
    let q = query-ok (λ t. of_row (share_with_id id t) f) d d' a h in
    (q.0, of_row-ok (share_with_id id d.tables) f q.1)

written :
    {A : Type 0} (r : Result Error (A × Tables)) (d d' : Db) (a : A)
    → after d r ≡ (ok a, d')
    → r ≡ ok (a, d'.tables)
written (ok (b, t)) d d' a h =
    let e : b ≡ a = cc h in
    let k : t ≡ d'.tables = ap (λ (p : Result Error _ × Db). p.1.tables) h in rw (e, k)
written (err e) d d' a h = absurd (cc h)

-- A statement that succeeds is what its function made of the tables.
pub statement-ok :
    {A : Type 0} (f : Tables → Result Error (A × Tables)) (d d' : Db) (a : A)
    → statement f d ≡ (ok a, d')
    → f d.tables ≡ ok (a, d'.tables)
unfolding statement
statement-ok f d d' a h = elim (Bool-cases (next_fault d.faults)) [
  | inl e ↦ absurd (cc (rw e at h))
  | inr e ↦ written (f d.tables) (record d { faults = later_faults d.faults }) d' a (rw e at h)
]

finish_tx-ok :
    {A : Type 0} (before : Tables) (r : Result Error A) (d d' : Db) (a : A)
    → finish_tx before r d ≡ (ok a, d')
    → (r ≡ ok a) × (d'.tables ≡ d.tables)
finish_tx-ok before (err e) d d' a h = absurd (cc h)
finish_tx-ok before (ok b) d d' a h = elim (Bool-cases (next_fault d.faults)) [
  | inl e ↦ absurd (cc (rw e at h))
  | inr e ↦
      let k = rw e at h in
      (
        ap (λ (p : Result Error _ × Db). p.0) k,
        sym (ap (λ (p : Result Error _ × Db). p.1.tables) k),
      )
]

-- A transaction that succeeds is its body, run on the same tables.
pub transaction-ok :
    {A : Type 0} (body : M A) (d d' : Db) (a : A)
    → transaction body d ≡ (ok a, d')
    → (d1 : Db) × ((d1.tables ≡ d.tables)
        × ((d2 : Db) × ((body d1 ≡ (ok a, d2)) × (d'.tables ≡ d2.tables))))
unfolding transaction
transaction-ok body d d' a h =
    let begin : M (Unit {0}) = statement (λ t. ok (tt, t)) in
    let run : Unit {0} → M _ = λ _ d. finish_tx d.tables (body d).0 (body d).1 in
    let (u, (d1, (e, k))) = bind-ok begin run d h in
    let same : d1.tables ≡ d.tables = sym (
      ap (λ (p : Unit {0} × Tables). p.1)
        (ok-injective (statement-ok (λ t. ok (tt, t)) d d1 u e))) in
    let (r, t) = finish_tx-ok d1.tables (body d1).0 (body d1).1 d' a k in
    (d1, (same, ((body d1).1, (pair_eq (body d1) r, t))))

finish_tx-err :
    {A : Type 0} (before : Tables) (r : Result Error A) (d d' : Db) (e : Error)
    → finish_tx before r d ≡ (err e, d')
    → d'.tables ≡ before
finish_tx-err before (err e') d d' e h = sym (ap (λ (p : Result Error _ × Db). p.1.tables) h)
finish_tx-err before (ok b) d d' e h = elim (Bool-cases (next_fault d.faults)) [
  | inl f ↦ sym (ap (λ (p : Result Error _ × Db). p.1.tables) (rw f at h))
  | inr f ↦ absurd (cc (rw f at h))
]

-- A transaction that fails changes nothing, wherever it fails.
pub transaction-err :
    {A : Type 0} (body : M A) (d d' : Db) (e : Error)
    → transaction body d ≡ (err e, d')
    → d'.tables ≡ d.tables
unfolding transaction statement
transaction-err body d d' e h = elim (Bool-cases (next_fault d.faults)) [
  | inl f ↦ sym (ap (λ (p : Result Error _ × Db). p.1.tables) (rw f at h))
  | inr f ↦
      let d1 = record d { faults = later_faults d.faults } in
      finish_tx-err d.tables (body d1).0 (body d1).1 d' e (rw f at h)
]

pub total_statement-ok :
    {A : Type 0} (f : Tables → A × Tables) (d d' : Db) (a : A)
    → statement (λ t. ok (f t)) d ≡ (ok a, d')
    → d'.tables ≡ (f d.tables).1
total_statement-ok f d d' a h =
    sym (ap (λ (p : _ × Tables). p.1) (ok-injective (statement-ok (λ t. ok (f t)) d d' a h)))

pub update_share-ok :
    (id : ℕ) (set : ShareRow → ShareRow) (d d' : Db)
    → update_share id set d ≡ (ok tt, d')
    → d'.tables ≡ with_share id set d.tables
unfolding update_share
update_share-ok id set d d' h = total_statement-ok (λ t. (tt, with_share id set t)) d d' tt h

answered : {A : Type 0} (d : Db) (t : Tables) (r : Result Error A) → (after d (reading t r)).0 ≡ r
answered d t (ok a) = refl
answered d t (err e) = refl

pub read_column-answer :
    {A : Type 0} (id : ℕ) (f : ShareRow → Result Error A) (t : Tables) (r : ShareRow)
    → find (λ (r : ShareRow). r.id == id) t.shares ≡ some r
    → answer (read_column id f) t ≡ f r
unfolding read_column query statement
read_column-answer id f t r h =
    answered (with_faults [] t) t (of_row (share_with_id id t) f)
    ∙ ap (λ o. of_row (ok_or o no_rows) f) h

pub reading-tables :
    {A : Type 0} (t t' : Tables) (r : Result Error A) (a : A) → reading t r ≡ ok (a, t') → t ≡ t'
reading-tables t t' (ok b) a h = ap (λ (p : _ × Tables). p.1) (ok-injective h)
reading-tables t t' (err e) a h = absurd (cc h)

-- A read on a store none of whose statements will fail.
pub read_column-run :
    {A : Type 0} (id : ℕ) (f : ShareRow → Result Error A) (d : Db) (a : A)
    → d.faults ≡ []
    → answer (read_column id f) d.tables ≡ ok a
    → read_column id f d ≡ (ok a, d)
unfolding read_column query statement
read_column-run id f d a e h =
    let r : of_row (share_with_id id d.tables) f ≡ ok a =
      sym (answered (with_faults [] d.tables) d.tables (of_row (share_with_id id d.tables) f))
      ∙ h in
    let same : d ≡ with_faults [] d.tables = λ i. record { tables = d.tables; faults = e i } in
    rw same (rw r refl)
