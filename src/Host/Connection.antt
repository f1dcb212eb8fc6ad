-- ===== src/Host/Connection.antt =====
-- waserver/src/iroh_transport.rs, lines 174 to 323, with the register of connections of
-- waserver/src/serving.rs, lines 254 to 292: one connection of a peer, from its acceptance to its
-- end, while other tasks call the database and the host revokes guests. Every `await` is a
-- point where others step. Row numbers are taken to fit the `i32` that the register casts them to.
pub mod Reachable
use wispers_access.Host.GuestApi.{Formats, StreamContext}
use wispers_access.Host.Protocol.{
  Handled, Incoming, answered, browsed, failed, handle, no_data, refused, shut, tunnelled,
}
use wispers_access.Host.Store.Calls.{GuestNode, guest_by_peer, touch_guest}
use wispers_access.Host.Store.Db.{M, Db, Error, External, Tables, Time, with_faults}
use wispers_access.Host.Store.History.{Call, call}
use wispers_access.Prelude.{
  Bool, List, Option, Result, Text, [], any, delete_where, err, if◌then◌else◌, is_some, none, ok,
  some, ℕ, ◌%◌, ◌&&◌, ◌++◌, ◌+◌, ◌==◌, ◌^◌, ◌∷◌, ◌≡◌,
}
use wispers_access.Wire.Streams.{revoked, unknown, CloseCode, closing}

pub record Registration : Type 0 where
  pub id : ℕ
  pub number : ℕ
  pub user_id : Text

pub data Phase : Type 0 where
  accepted activating handled : Phase
  resolved : GuestNode → Phase
  serving : (registration : ℕ) → GuestNode → Phase
  closed : CloseCode → Phase

pub record World : Type 0 where
  pub tables : Tables
  pub connections : List Registration
  pub next_connection_id : ℕ
  pub phase : Phase

unfoldable pub identify_guest : GuestNode → Phase
identify_guest guest = if is_some guest.revoked_at then closed revoked else resolved guest

-- The `match` of `handle_incoming` on the lookup.
unfoldable pub identify : Result Error (Option GuestNode) → Phase
unfolding identify_guest
identify (ok (some guest)) = identify_guest guest
identify (ok none) = activating
identify (err e) = closed closing

unfoldable pub bound_guest : GuestNode → Phase
bound_guest guest = if is_some guest.revoked_at then closed unknown else resolved guest

-- The `match` at the end of `activate`.
unfoldable pub identify_again : Result Error (Option GuestNode) → Phase
unfolding bound_guest
identify_again (ok (some guest)) = bound_guest guest
identify_again (ok none) = closed unknown
identify_again (err e) = closed closing

-- `activate`, once the stream was handled: a refused stream closes the connection, and after any
-- other the peer is looked up again.
unfoldable pub after_stream : Result Error Handled → Phase
after_stream (ok refused) = closed unknown
after_stream (ok failed) = handled
after_stream (ok (answered response)) = handled
after_stream (ok (browsed target user)) = handled
after_stream (ok (tunnelled t user)) = handled
after_stream (ok shut) = handled
after_stream (ok no_data) = handled
after_stream (err e) = handled

-- `register_connection`: the id is an `AtomicU64`.
unfoldable pub register_connection : ℕ → Text → World → World
register_connection number user_id w = record w {
  connections =
      delete_where (λ (c : Registration). c.id == w.next_connection_id) w.connections
      ++ (record { id = w.next_connection_id; number = number; user_id = user_id } ∷ []);
  next_connection_id = (w.next_connection_id + 1) % 2 ^ 64;
}

unfoldable pub unregister_connection : ℕ → World → World
unregister_connection id w = record w {
  connections = delete_where (λ (c : Registration). c.id == id) w.connections;
}

-- `close_connections`, which the task of a connection answers by unregistering it.
unfoldable pub close_phase : ℕ → List Registration → Phase → Phase
close_phase number connections (serving id guest) =
    if any (λ (c : Registration). c.id == id && c.number == number) connections
    then closed revoked
    else serving id guest
close_phase number connections accepted = accepted
close_phase number connections activating = activating
close_phase number connections handled = handled
close_phase number connections (resolved guest) = resolved guest
close_phase number connections (closed code) = closed code

unfoldable pub close_connections : ℕ → World → World
unfolding close_phase
close_connections number w = record w {
  connections = delete_where (λ (c : Registration). c.number == number) w.connections;
  phase = close_phase number w.connections w.phase;
}

module _ (x : External) (formats : Formats) (connect : Text → Bool) (peer : Text) where
  -- A stream of a peer that is not activated, and one of a guest node.
  unfoldable pub before_activation : Incoming → StreamContext → Time → M Handled
  unfolding handle
  before_activation stream ctx now =
      handle x formats connect stream ctx (record { peer_id = peer; user_id = none }) now

  unfoldable pub serve_stream : GuestNode → Incoming → StreamContext → Time → M Handled
  unfolding handle
  serve_stream guest stream ctx now =
      handle x formats connect stream ctx
        (record { peer_id = guest.peer_id; user_id = some guest.user_id }) now

  pub data Step : World → World → Type 0 where
    -- `handle_incoming` looks the peer up.
    looked_up :
        (w : World) (faults : List Bool)
        → w.phase ≡ accepted
        → Step w
            (record w { phase = identify (guest_by_peer peer (with_faults faults w.tables)).0 })
    -- `activate`: no stream in time, or one stream, and after it the peer is looked up again.
    timed_out :
        (w : World) (code : CloseCode)
        → w.phase ≡ activating
        → Step w (record w { phase = closed code })
    stream_before :
        (w : World) (faults : List Bool) (stream : Incoming) (ctx : StreamContext) (now : Time)
        → w.phase ≡ activating
        → Step w (record w {
          tables = (before_activation stream ctx now (with_faults faults w.tables)).1.tables;
          phase = after_stream (before_activation stream ctx now (with_faults faults w.tables)).0;
        })
    looked_up_again :
        (w : World) (faults : List Bool)
        → w.phase ≡ handled
        → Step w (record w {
          phase = identify_again (guest_by_peer peer (with_faults faults w.tables)).0;
        })
    -- `serve_guest`: last seen, then the registration, then streams, then the end.
    touched :
        (w : World) (faults : List Bool) (now : Time) (guest : GuestNode)
        → w.phase ≡ resolved guest
        → Step w (record w {
          tables = (touch_guest guest.peer_id now (with_faults faults w.tables)).1.tables;
        })
    registered :
        (w : World) (guest : GuestNode)
        → w.phase ≡ resolved guest
        → Step w (record (register_connection guest.number guest.user_id w) {
          phase = serving w.next_connection_id guest;
        })
    stream_served :
        (w : World) (faults : List Bool) (stream : Incoming) (ctx : StreamContext) (now : Time)
        (id : ℕ) (guest : GuestNode)
        → w.phase ≡ serving id guest
        → Step w (record w {
          tables = (serve_stream guest stream ctx now (with_faults faults w.tables)).1.tables;
        })
    ended :
        (w : World) (id : ℕ) (guest : GuestNode)
        → w.phase ≡ serving id guest
        → Step w (record (unregister_connection id w) { phase = closed closing })
    -- Other tasks, and the two parts of `ServingHandle::revoke_guest`.
    other_call :
        (w : World) (faults : List Bool) (c : Call)
        → Step w (record w { tables = call x c (with_faults faults w.tables) })
    other_connection :
        (w : World) (number : ℕ) (user_id : Text) → Step w (register_connection number user_id w)
    revocation_closes : (w : World) (number : ℕ) → Step w (close_connections number w)

  infixr 5 ◌▸◌
  pub data Steps : World → World → Type 0 where
    here : (w : World) → Steps w w
    ◌▸◌ : {u v w : World} → Step u v → Steps v w → Steps u w
