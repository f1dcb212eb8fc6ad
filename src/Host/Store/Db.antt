-- ===== src/Host/Store/Db.antt =====
-- waserver/src/storage.rs, lines 602 to 609 and 651 to 681: rows, the schema's constraints, and what a
-- statement does. SQL is read as a language; SQLite itself enters as the next row id and as
-- the environment's choice of which coming statements fail, for example on a full disk.
use wispers_access.Prelude.{
  ℕ, ◌*◌, ◌/◌, ◌≡◌, Bool, false, List, [], ◌∷◌, Option, none, some, Text, ◌==◌, if◌then◌else◌, any,
  Result, ok, err,
}

-- A `DateTime<Utc>` is a number of nanoseconds after 1970-01-01; the `_at` columns hold seconds.
abbrev pub Time : Type 0
Time = ℕ

abbrev pub nanos : ℕ
nanos = 1_000_000_000

abbrev pub to_secs : Time → ℕ
to_secs t = t / nanos

abbrev pub from_secs : ℕ → Time
from_secs secs = secs * nanos

-- A row of `invites`.
pub record InviteRecord : Type 0 where
  pub id : ℕ
  pub secret_hash : Text
  pub user_id : Text
  pub node_name : Text
  pub created_at : ℕ
  pub expires_at : ℕ
  pub consumed_at : Option ℕ

-- A row of `guests`.
pub record GuestRecord : Type 0 where
  pub id : ℕ
  pub peer_id : Text
  pub user_id : Text
  pub display_name : Text
  pub invite_id : ℕ
  pub activated_at : ℕ
  pub last_seen_at : Option ℕ
  pub revoked_at : Option ℕ

pub record Tables : Type 0 where
  pub invites : List InviteRecord
  pub guests : List GuestRecord

pub record Db : Type 0 where
  pub tables : Tables
  pub faults : List Bool

abbrev pub with_faults : List Bool → Tables → Db
with_faults faults t = record { tables = t; faults = faults }

-- What the store calls and does not implement: SHA-256 of an invite secret's bytes, and the row
-- id that SQLite gives the next row of a table with these ids.
pub record External : Type 0 where
  pub sha256 : Text → Text
  pub next_rowid : List ℕ → ℕ

-- "The new ROWID is not one that is in use", the documented behaviour of INTEGER PRIMARY KEY.
abbrev pub IsFresh : External → Type 0
IsFresh x = (ids : List ℕ) → any (λ id. id == x.next_rowid ids) ids ≡ false

-- `storage::Error`, as far as the methods below return it.
pub data Error : Type 0 where
  db : Error
  no_such_guest : ℕ → Error

abbrev pub M : Type 0 → Type 0
M A = Db → Result Error A × Db

infixl 5 ◌>>=◌ ◌>>◌
abbrev pub bind_result : {A B : Type 0} → Result Error A → (A → M B) → M B
bind_result (ok a) f d = f a d
bind_result (err e) f d = (err e, d)

abbrev pub ◌>>=◌ : {A B : Type 0} → M A → (A → M B) → M B
◌>>=◌ m f d = bind_result (m d).0 f (m d).1

abbrev pub ◌>>◌ : {A B : Type 0} → M A → M B → M B
m >> n = m >>= λ _. n

abbrev pub pure : {A : Type 0} → A → M A
pure a d = (ok a, d)

abbrev pub fail : {A : Type 0} → Error → M A
fail e d = (err e, d)

abbrev pub next_fault : List Bool → Bool
next_fault [] = false
next_fault (b ∷ bs) = b

abbrev pub later_faults : List Bool → List Bool
later_faults [] = []
later_faults (b ∷ bs) = bs

abbrev pub after : {A : Type 0} → Db → Option (A × Tables) → Result Error A × Db
after d none = (err db, d)
after d (some (a, t)) = (ok a, record d { tables = t })

-- One statement: it fails if the environment says so or if it breaks a constraint, and then it
-- writes nothing.
unfoldable pub statement : {A : Type 0} → (Tables → Option (A × Tables)) → M A
statement f d =
    let d' = record d { faults = later_faults d.faults } in
    if next_fault d.faults then (err db, d') else after d' (f d.tables)

-- A SELECT.
unfoldable pub query : {A : Type 0} → (Tables → A) → M A
unfolding statement
query f = statement (λ t. some (f t, t))

-- How a method that opened a transaction ends: by dropping it, which rolls back, or by `commit`.
pub data Outcome (A : Type 0) : Type 0 where
  dropped : A → Outcome A
  committed : A → Outcome A

abbrev pub finish_tx : {A : Type 0} → Tables → Result Error (Outcome A) → M A
finish_tx before (err e) d = (err e, record d { tables = before })
finish_tx before (ok (dropped a)) d = (ok a, record d { tables = before })
finish_tx before (ok (committed a)) d =
    let d' = record d { faults = later_faults d.faults } in
    if next_fault d.faults then (err db, record d' { tables = before }) else (ok a, d')

abbrev pub begin_tx : M (Unit {0})
begin_tx = statement (λ t. some (tt, t))

-- `transaction_with_behavior(Immediate)` and what follows it to the method's end.
unfoldable pub transaction : {A : Type 0} → M (Outcome A) → M A
unfolding statement
transaction body d =
    bind_result (begin_tx d).0 (λ _ d'. finish_tx d'.tables (body d').0 (body d').1) (begin_tx d).1
