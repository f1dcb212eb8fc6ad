-- ===== src/Sdk/GuestNode.antt =====
-- sdk/src/guest_node.rs, lines 19 to 252: a guest's node in one share. The transport, the exchange with
-- the host and the clock are what one call meets. Each function is a call that no other call of the
-- node overlaps; the steps of calls that do are in the child Shared.
pub mod Dead
pub mod Dials
pub mod Refreshed
pub mod Shared
pub mod Stores
pub mod Unchanged
use wispers_access.Prelude.{
  Bool, List, Option, Result, Text, [], err, false, if◌then◌else◌, ltb, none, ok, some, true, ℕ,
  ◌++◌, ◌-◌, ◌∷◌,
}
use wispers_access.Sdk.GuestCalls.{
  CallError, Exchange, activation_refused, failed, fetch_info, invite_refused, too_old, unexpected,
}
use wispers_access.Sdk.Store.Db.{◌>>◌, Db, Error, M}
use wispers_access.Sdk.Store.Info.{write_share_info}
use wispers_access.Sdk.Store.Rows.{
  Json, read_share_config_hash, write_outdated, write_terminal_state,
}
use wispers_access.Sdk.Store.Shares.{Share, read_share}
use wispers_access.Sdk.Transports
use wispers_access.Sdk.Transports.{
  ConnectionCheck, TerminalState, TransportError, alive, no_connection, terminal, transient,
}
use wispers_access.Wire.Share.{ShareInfo}

-- What the node does outside itself: a call of `open_stream` or `check_connection` of the
-- transport, and of the observer's `on_share_changed`.
pub data Event : Type 0 where
  dialed checked : Event
  share_changed : Share → Event

-- The node's `row`, `dead` and `last_used`, the store, and what it did so far.
pub record Node : Type 0 where
  pub row : ℕ
  pub dead : Option TerminalState
  pub last_used : Option ℕ
  pub db : Db
  pub log : List Event

-- What a call meets: the answers of the transport, the host at the far end, and the clock in
-- nanoseconds.
pub record Far : Type 0 where
  pub dial : Result TransportError (Unit {0})
  pub check : Result TransportError ConnectionCheck
  pub exchange : Exchange
  pub now : ℕ

pub data RefreshError : Type 0 where
  terminal_error outdated_error transient_error : RefreshError

abbrev pub logged : Event → Node → Node
logged e n = record n { log = n.log ++ (e ∷ []) }

abbrev pub announced : Result Error Share × Db → Node → Node
announced (ok share, db) n = record n { db = db; log = n.log ++ (share_changed share ∷ []) }
announced (err e, db) n = record n { db = db }

-- 10 minutes.
abbrev pub recent_use : ℕ
recent_use = 600_000_000_000

unfoldable pub recently_used : ℕ → Option ℕ → Bool
recently_used now none = false
recently_used now (some at) = ltb (now - at) recent_use

abbrev pub N : Type 0 → Type 0
N A = Node → Result RefreshError A × Node

module _ (j : Json) where
  unfoldable pub record_terminal_error : TerminalState → Node → Node
  unfolding write_terminal_state read_share Transports.as_str
  record_terminal_error s n =
      announced ((write_terminal_state n.row (Transports.as_str s) >> read_share j n.row) n.db)
        (record n { dead = some s })

  unfoldable pub dial_answer :
      Far → Result TransportError (Unit {0}) → Node → Result TransportError (Unit {0}) × Node
  unfolding record_terminal_error
  dial_answer far (ok stream) n = (ok stream, record n { last_used = some far.now })
  dial_answer far (err (terminal s)) n = (err (terminal s), record_terminal_error s n)
  dial_answer far (err transient) n = (err transient, n)

  unfoldable pub open_unless :
      Far → Option TerminalState → Node → Result TransportError (Unit {0}) × Node
  unfolding dial_answer
  open_unless far (some s) n = (err (terminal s), n)
  open_unless far none n = dial_answer far far.dial (logged dialed n)

  -- `open_stream` waits for a probe that is under way and goes on as this does.
  unfoldable pub open_stream_ungated : Far → Node → Result TransportError (Unit {0}) × Node
  unfolding open_unless
  open_stream_ungated far n = open_unless far n.dead n

  unfoldable pub reconnect : Far → Node → Node
  unfolding open_stream_ungated
  reconnect far n = (open_stream_ungated far n).1

  unfoldable pub redial : Far → Node → Node
  unfolding recently_used reconnect
  redial far n =
      let again = reconnect far n in if recently_used far.now n.last_used then again else n

  unfoldable pub checked_connection : Far → Result TransportError ConnectionCheck → Node → Node
  unfolding redial record_terminal_error
  checked_connection far (ok alive) n = n
  checked_connection far (ok no_connection) n = redial far n
  checked_connection far (ok ConnectionCheck.dead) n = redial far n
  checked_connection far (err (terminal s)) n = record_terminal_error s n
  checked_connection far (err transient) n = redial far n

  unfoldable pub check_connection : Far → Node → Node
  unfolding checked_connection
  check_connection far n = checked_connection far far.check (logged checked n)

  abbrev pub with_db :
      {A : Type 0} → Result Error A × Db → (A → N (Option ShareInfo)) → N (Option ShareInfo)
  with_db (ok a, db) k n = k a (record n { db = db })
  with_db (err e, db) k n = (err transient_error, record n { db = db })

  -- A call of the store with `?`: its error is a `RefreshError::Transient`.
  abbrev pub on_db : {A : Type 0} → M A → (A → N (Option ShareInfo)) → N (Option ShareInfo)
  on_db m k n = with_db (m n.db) k n

  abbrev pub announce : Share → N (Option ShareInfo) → N (Option ShareInfo)
  announce share k n = k (logged (share_changed share) n)

  abbrev pub announce_if : ℕ → Bool → N (Option ShareInfo) → N (Option ShareInfo)
  announce_if row b k n =
      let told = on_db (read_share j row) (λ share. announce share k) n in if b then told else k n

  unfoldable pub stored : ℕ → Bool → Option ShareInfo → N (Option ShareInfo)
  unfolding write_share_info read_share
  stored row previously_outdated none = announce_if row previously_outdated (λ n. (ok none, n))
  stored row previously_outdated (some info) =
      on_db (write_share_info j row info) (λ _. announce_if row true (λ n. (ok (some info), n)))

  unfoldable pub fetched : ℕ → Result CallError (Option ShareInfo) → N (Option ShareInfo)
  unfolding write_outdated stored read_share
  fetched row (ok info) =
      on_db (write_outdated row false) (λ previously. stored row previously info)
  fetched row (err too_old) =
      on_db (write_outdated row true)
        (λ changed. announce_if row changed (λ n. (err outdated_error, n)))
  fetched row (err failed) = λ n. (err transient_error, n)
  fetched row (err (unexpected status)) = λ n. (err transient_error, n)
  fetched row (err (invite_refused why)) = λ n. (err transient_error, n)
  fetched row (err (activation_refused why)) = λ n. (err transient_error, n)

  unfoldable pub after_open : Text → Far → Result TransportError (Unit {0}) → N (Option ShareInfo)
  unfolding fetched fetch_info read_share_config_hash
  after_open version far (err (terminal s)) n = (err terminal_error, n)
  after_open version far (err transient) n = (err transient_error, n)
  after_open version far (ok stream) n =
      on_db (read_share_config_hash n.row)
        (λ known. fetched n.row (fetch_info version far.exchange known)) n

  -- `refresh` of an SDK of a version.
  unfoldable pub refresh : Text → Far → N (Option ShareInfo)
  unfolding open_stream_ungated after_open
  refresh version far n =
      let opened = open_stream_ungated far n in after_open version far opened.0 opened.1
