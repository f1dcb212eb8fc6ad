-- ===== src/Sdk/Store/Db.antt =====
-- sdk/src/storage.rs, lines 13 to 15 and 485 to 562: the tables of a client's `state.db` with their
-- constraints, and what a statement does. SQL is read as a language; SQLite itself enters as
-- the environment's choice of which coming statements fail, for example on a full disk.
use wispers_access.Prelude.{
  Bool, List, Option, Result, Text, [], any, delete_where, err, false, find, if◌then◌else◌, ok,
  ok_or, update_where, ℕ, ◌&&◌, ◌==◌, ◌∷◌,
}

-- A row of `shares`. `complete` is NULL until it is set.
pub record ShareRow : Type 0 where
  pub id : ℕ
  pub share_id : Text
  pub display_name : Option Text
  pub hostname : Option Text
  pub transport : Text
  pub wispers_connect_backend : Option Text
  pub iroh_endpoint_id : Option Text
  pub config_hash : Option Text
  pub created_at : ℕ
  pub complete : Option Bool
  pub terminal_state : Option Text
  pub outdated : Bool
  pub ca_certificates : Text
  pub forward_proxy_port : Option ℕ

-- A row of `apps`; `share` is the column `share_id`, an id of `shares`.
pub record AppRow : Type 0 where
  pub share : ℕ
  pub position : ℕ
  pub app_id : Text
  pub name : Text
  pub kind : Text
  pub mode : Text
  pub start_url : Option Text
  pub proxied_origins : Text

-- A row of `app_ports`.
pub record PortRow : Type 0 where
  pub share : ℕ
  pub app_id : Text
  pub port : ℕ

-- `last_id` is the largest id that a row of `shares` ever had, which AUTOINCREMENT keeps.
pub record Tables : Type 0 where
  pub shares : List ShareRow
  pub apps : List AppRow
  pub app_ports : List PortRow
  pub last_id : ℕ

pub record Db : Type 0 where
  pub tables : Tables
  pub faults : List Bool

abbrev pub with_faults : List Bool → Tables → Db
with_faults faults t = record { tables = t; faults = faults }

-- `anyhow::Error` as the methods make it: SQLite's `ConstraintViolation`, its other failures,
-- `QueryReturnedNoRows`, a value out of the range of its Rust type, a JSON column that does not
-- parse and a transport that no build names.
pub data Error : Type 0 where
  constraint failure no_rows out_of_range bad_json : Error
  unknown_transport : Text → Error

abbrev pub M : Type 0 → Type 0
M A = Db → Result Error A × Db

infixl 5 ◌>>=◌ ◌>>◌
abbrev pub bind_result : {A B : Type 0} → Result Error A → (A → M B) → M B
bind_result (ok a) f d = f a d
bind_result (err e) f d = (err e, d)

abbrev pub ◌>>=◌ : {A B : Type 0} → M A → (A → M B) → M B
◌>>=◌ m f d = bind_result (m d).0 f (m d).1

abbrev pub ◌>>◌ : {A B : Type 0} → M A → M B → M B
m >> n = m >>= λ _. n

abbrev pub pure : {A : Type 0} → A → M A
pure a d = (ok a, d)

abbrev pub lift : {A : Type 0} → Result Error A → M A
lift r d = (r, d)

abbrev pub next_fault : List Bool → Bool
next_fault [] = false
next_fault (b ∷ bs) = b

abbrev pub later_faults : List Bool → List Bool
later_faults [] = []
later_faults (b ∷ bs) = bs

abbrev pub after : {A : Type 0} → Db → Result Error (A × Tables) → Result Error A × Db
after d (err e) = (err e, d)
after d (ok (a, t)) = (ok a, record d { tables = t })

-- One statement: it fails if the environment says so or if it breaks a constraint, and then it
-- writes nothing.
unfoldable pub statement : {A : Type 0} → (Tables → Result Error (A × Tables)) → M A
statement f d =
    let d' = record d { faults = later_faults d.faults } in
    if next_fault d.faults then (err failure, d') else after d' (f d.tables)

abbrev pub reading : {A : Type 0} → Tables → Result Error A → Result Error (A × Tables)
reading t (err e) = err e
reading t (ok a) = ok (a, t)

-- A SELECT and the conversion of its columns.
unfoldable pub query : {A : Type 0} → (Tables → Result Error A) → M A
unfolding statement
query f = statement (λ t. reading t (f t))

abbrev pub finish_tx : {A : Type 0} → Tables → Result Error A → M A
finish_tx before (err e) d = (err e, record d { tables = before })
finish_tx before (ok a) d =
    let d' = record d { faults = later_faults d.faults } in
    if next_fault d.faults then (err failure, record d' { tables = before }) else (ok a, d')

-- `conn.transaction()?`, the statements of `body`, `tx.commit()?`. An error drops the
-- transaction, which rolls it back.
unfoldable pub transaction : {A : Type 0} → M A → M A
unfolding statement
transaction body = statement (λ t. ok (tt, t)) >>= λ _ d. finish_tx d.tables (body d).0 (body d).1

-- `UPDATE shares SET … WHERE id = ?` of columns without a constraint.
unfoldable pub update_share : ℕ → (ShareRow → ShareRow) → M (Unit {0})
unfolding statement
update_share id set =
    statement
      (λ t. ok (tt, record t { shares = update_where (λ (r : ShareRow). r.id == id) set t.shares }))

abbrev pub share_with_id : ℕ → Tables → Result Error ShareRow
share_with_id id t = ok_or (find (λ (r : ShareRow). r.id == id) t.shares) no_rows

abbrev pub of_row :
    {A : Type 0} → Result Error ShareRow → (ShareRow → Result Error A) → Result Error A
of_row (err e) f = err e
of_row (ok r) f = f r

-- `SELECT … FROM shares WHERE id = ?` with `query_row`.
unfoldable pub read_column : {A : Type 0} → ℕ → (ShareRow → Result Error A) → M A
unfolding query
read_column id f = query (λ t. of_row (share_with_id id t) f)

-- ON DELETE CASCADE: what refers to a deleted share goes with it.
abbrev pub delete_shares : (ShareRow → Bool) → Tables → Tables
delete_shares p t =
    let gone : ℕ → Bool = λ id. any (λ (r : ShareRow). r.id == id && p r) t.shares in
    record t {
      shares = delete_where p t.shares;
      apps = delete_where (λ (a : AppRow). gone a.share) t.apps;
      app_ports = delete_where (λ (a : PortRow). gone a.share) t.app_ports;
    }

abbrev pub with_shares : (ShareRow → Bool) → (ShareRow → ShareRow) → Tables → Tables
with_shares p set t = record t { shares = update_where p set t.shares }

abbrev pub with_share : ℕ → (ShareRow → ShareRow) → Tables → Tables
with_share id set t = with_shares (λ (r : ShareRow). r.id == id) set t

-- The answer of a method on tables when no statement fails.
abbrev pub answer : {A : Type 0} → M A → Tables → Result Error A
answer m t = (m (with_faults [] t)).0
