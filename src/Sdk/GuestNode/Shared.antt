-- ===== src/Sdk/GuestNode/Shared.antt =====
-- sdk/src/guest_node.rs, lines 58 to 234: calls of one node that overlap. A step is what a call does
-- between two points where others step: the test of `dead`, which is unlocked before the transport is
-- asked; asking it; its answer; and the same for a check. The gate of the checks only holds calls
-- back, so the orders without it, which are those here, are all of its orders and more.
use wispers_access.Prelude.{Option, Result, if◌then◌else◌, is_some, ok, err, suc, ℕ, ◌≡◌}
use wispers_access.Sdk.GuestCalls.{CallError}
use wispers_access.Sdk.GuestNode.{
  Far, Node, checked, dial_answer, dialed, fetched, logged, record_terminal_error,
}
use wispers_access.Sdk.Store.Db.{Db}
use wispers_access.Sdk.Store.Rows.{Json}
use wispers_access.Sdk.Transports.{ConnectionCheck, TransportError, terminal, transient}
use wispers_access.Wire.Share.{ShareInfo}

-- The node, how many calls have passed the test of `dead` and not asked the transport yet, how many
-- wait for its answer, and how many checks wait for theirs.
pub record Shared : Type 0 where
  pub node : Node
  pub past : ℕ
  pub dialing : ℕ
  pub checking : ℕ

-- `open_stream_ungated` up to its first return: a node that was turned away fails the call.
unfoldable pub enter : Shared → Shared
enter s = if is_some s.node.dead then s else record s { past = suc s.past }

-- What a check does with the answer, before it goes on to `open_stream_ungated`, if it does.
unfoldable pub check_answer : Json → Result TransportError ConnectionCheck → Node → Node
unfolding record_terminal_error
check_answer j (ok verdict) n = n
check_answer j (err (terminal s)) n = record_terminal_error j s n
check_answer j (err transient) n = n

pub data Step (j : Json) : Shared → Shared → Type 0 where
  -- A call of any kind comes to the test of `dead`.
  enters : (s : Shared) → Step j s (enter s)
  dials_out :
      (s : Shared) (n : ℕ)
      → s.past ≡ suc n
      → Step j s (record s { node = logged dialed s.node; past = n; dialing = suc s.dialing })
  dial_ends :
      (s : Shared) (n : ℕ) (far : Far)
      → s.dialing ≡ suc n
      → Step j s (record s { node = (dial_answer j far far.dial s.node).1; dialing = n })
  check_begins :
      (s : Shared) → Step j s (record s { node = logged checked s.node; checking = suc s.checking })
  check_ends :
      (s : Shared) (n : ℕ) (far : Far)
      → s.checking ≡ suc n
      → Step j s (record s { node = check_answer j far.check s.node; checking = n })
  -- A refresh has its answer from the host.
  fetch_ends :
      (s : Shared) (result : Result CallError (Option ShareInfo))
      → Step j s (record s { node = (fetched j s.node.row result s.node).1 })
  -- Other statements on the store, of this node and of others.
  store_changes : (s : Shared) (db : Db) → Step j s (record s { node = record s.node { db = db } })

infixr 5 ◌▸◌
pub data Steps (j : Json) : Shared → Shared → Type 0 where
  here : (s : Shared) → Steps j s s
  ◌▸◌ : {u v w : Shared} → Step j u v → Steps j v w → Steps j u w
