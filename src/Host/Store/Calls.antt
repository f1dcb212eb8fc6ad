-- ===== src/Host/Store/Calls.antt =====
-- waserver/src/storage.rs, the methods of `StateDb` on invites and guest nodes.
use wispers_access.Prelude.{
  ℕ, ◌+◌, Bool, not, ◌&&◌, ◌||◌, List, [], ◌∷◌, ◌++◌, map, Option, none, some, Text, text_eq, ◌==◌,
  ltb, leb, if◌then◌else◌, any, find, is_some, select, delete_where, update_where,
}
use mathlib.Core.Option
use wispers_access.Wire.Activation.{
  ActivationError, invite_unknown, invite_expired, invite_consumed, revoked, already_guest,
}
use wispers_access.Host.Store.Db.{
  Time, to_secs, from_secs, InviteRecord, GuestRecord, Tables, External, no_such_guest, M, ◌>>=◌,
  ◌>>◌, pure, fail, statement, query, Outcome, dropped, committed, transaction,
}

-- `storage::NewInvite`.
pub record NewInvite : Type 0 where
  pub secret : Text
  pub user_id : Text
  pub node_name : Text
  pub expires_at : Time

-- `storage::InviteRow`.
pub record InviteRow : Type 0 where
  pub id : ℕ
  pub user_id : Text
  pub node_name : Text
  pub created_at : Time
  pub expires_at : Time
  pub consumed_at : Option Time

-- `storage::GuestNode`.
pub record GuestNode : Type 0 where
  pub number : ℕ
  pub peer_id : Text
  pub user_id : Text
  pub display_name : Text
  pub activated_at : Time
  pub last_seen_at : Option Time
  pub revoked_at : Option Time

-- `storage::Redemption`.
pub data Redemption : Type 0 where
  activated : GuestNode → Redemption
  refused : ActivationError → Redemption

unfoldable pub guest_from_row : GuestRecord → GuestNode
guest_from_row g = record {
  number = g.id;
  peer_id = g.peer_id;
  user_id = g.user_id;
  display_name = g.display_name;
  activated_at = from_secs g.activated_at;
  last_seen_at = Option.map from_secs g.last_seen_at;
  revoked_at = Option.map from_secs g.revoked_at;
}

-- The conditions of the WHERE clauses and of the UNIQUE columns.
abbrev pub has_peer : Text → GuestRecord → Bool
has_peer peer g = text_eq g.peer_id peer

abbrev pub has_number : ℕ → GuestRecord → Bool
has_number number g = g.id == number

abbrev pub has_hash : Text → InviteRecord → Bool
has_hash hash i = text_eq i.secret_hash hash

abbrev pub has_id : ℕ → InviteRecord → Bool
has_id id i = i.id == id

insert_invite : External → NewInvite → Time → Tables → Option (ℕ × Tables)
insert_invite x new now t =
    let hash = x.sha256 new.secret in
    let id = x.next_rowid (map (λ (i : InviteRecord). i.id) t.invites) in
    let row : InviteRecord = record {
      id = id;
      secret_hash = hash;
      user_id = new.user_id;
      node_name = new.node_name;
      created_at = to_secs now;
      expires_at = to_secs new.expires_at;
      consumed_at = none;
    } in
    if any (has_hash hash) t.invites
    then none
    else some (id, record t { invites = t.invites ++ row ∷ [] })

unfoldable pub create_invite : External → NewInvite → Time → M ℕ
unfolding insert_invite statement
create_invite x new now = statement (insert_invite x new now)

-- Seven days, in seconds.
abbrev pub invite_history : ℕ
invite_history = 604800

-- `created_at > now - 7 days` is written with the days on the other side, since a subtraction
-- stops at 0 here.
is_recent : ℕ → InviteRecord → Bool
is_recent now_secs i =
    (not (is_some i.consumed_at) && ltb now_secs i.expires_at)
    || ltb now_secs (i.created_at + invite_history)

invite_from_row : InviteRecord → InviteRow
invite_from_row i = record {
  id = i.id;
  user_id = i.user_id;
  node_name = i.node_name;
  created_at = from_secs i.created_at;
  expires_at = from_secs i.expires_at;
  consumed_at = Option.map from_secs i.consumed_at;
}

-- ORDER BY, as an insertion sort: the row goes before the first that does not precede it.
abbrev order_insert {ℓ} : {A : Type ℓ} → (A → A → Bool) → A → List A → List A
order_insert before x [] = x ∷ []
order_insert before x (y ∷ ys) =
    let rest = order_insert before x ys in if before x y then x ∷ y ∷ ys else y ∷ rest

abbrev pub order_by {ℓ} : {A : Type ℓ} → (A → A → Bool) → List A → List A
order_by before [] = []
order_by before (x ∷ xs) = order_insert before x (order_by before xs)

unfoldable pub recent_invites : Time → M (List InviteRow)
unfolding is_recent invite_from_row query
recent_invites now = query λ t.
    map invite_from_row (
      order_by (λ (i j : InviteRecord). ltb j.id i.id) (select (is_recent (to_secs now)) t.invites))

-- SELECT … FROM guests g JOIN invites i ON i.id = g.invite_id WHERE g.peer_id = ?1
unfoldable pub find_binding : Text → Tables → Option (GuestNode × Text)
unfolding guest_from_row
find_binding peer t = elim (find (has_peer peer) t.guests) [
  | none ↦ none
  | some g ↦
      Option.map (λ (i : InviteRecord). (guest_from_row g, i.secret_hash))
        (find (has_id g.invite_id) t.invites)
]

-- The answer to a peer that has a row already.
unfoldable pub answer_bound : GuestNode → Text → Text → Redemption
answer_bound guest bound_hash secret_hash =
    if is_some guest.revoked_at
    then refused revoked
    else if text_eq bound_hash secret_hash
    then activated guest
    else refused already_guest

unfoldable pub new_guest : ℕ → Text → InviteRecord → ℕ → GuestRecord
new_guest number peer i now_secs = record {
  id = number;
  peer_id = peer;
  user_id = i.user_id;
  display_name = i.node_name;
  invite_id = i.id;
  activated_at = now_secs;
  last_seen_at = none;
  revoked_at = none;
}

abbrev pub guest_number : External → Tables → ℕ
guest_number x t = x.next_rowid (map (λ (g : GuestRecord). g.id) t.guests)

-- INSERT INTO guests: the peer id is UNIQUE and the invite must exist.
unfoldable pub insert_guest : External → Text → InviteRecord → ℕ → Tables → Option (ℕ × Tables)
unfolding new_guest
insert_guest x peer i now_secs t =
    if any (has_peer peer) t.guests || not (any (has_id i.id) t.invites)
    then none
    else some (
      guest_number x t,
      record t { guests = t.guests ++ new_guest (guest_number x t) peer i now_secs ∷ [] },
    )

abbrev pub set_consumed : ℕ → InviteRecord → InviteRecord
set_consumed now_secs i = record i { consumed_at = some now_secs }

-- UPDATE invites SET consumed_at = ?1 WHERE id = ?2
unfoldable pub consume_invite : ℕ → ℕ → Tables → Tables
consume_invite now_secs id t = record t {
  invites = update_where (has_id id) (set_consumed now_secs) t.invites;
}

-- "Finally, redeem the invite", in the transaction.
unfoldable pub bind_guest : External → Text → InviteRecord → ℕ → M (Outcome Redemption)
unfolding statement insert_guest consume_invite guest_from_row
bind_guest x peer i now_secs = do
  number ← statement (insert_guest x peer i now_secs)
  statement (λ t. some (tt, consume_invite now_secs i.id t))
  pure (committed (activated (guest_from_row (new_guest number peer i now_secs))))

unfoldable pub redeem_found : External → Text → ℕ → Option InviteRecord → M (Outcome Redemption)
unfolding bind_guest
redeem_found x peer now_secs none = pure (dropped (refused invite_unknown))
redeem_found x peer now_secs (some i) =
    if is_some i.consumed_at
    then pure (dropped (refused invite_consumed))
    else if leb i.expires_at now_secs
    then pure (dropped (refused invite_expired))
    else bind_guest x peer i now_secs

unfoldable pub redeem_as :
    External → Text → Text → ℕ → Option (GuestNode × Text) → M (Outcome Redemption)
unfolding answer_bound redeem_found query
redeem_as x hash peer now_secs (some (guest, bound_hash)) =
    pure (dropped (answer_bound guest bound_hash hash))
redeem_as x hash peer now_secs none = do
  invite ← query (λ t. find (has_hash hash) t.invites)
  redeem_found x peer now_secs invite

unfoldable pub redeem_invite : External → Text → Text → Time → M Redemption
unfolding transaction redeem_as query find_binding
redeem_invite x secret peer now = transaction (do
  existing ← query (find_binding peer)
  redeem_as x (x.sha256 secret) peer (to_secs now) existing)

unfoldable pub guest_by_peer : Text → M (Option GuestNode)
unfolding query guest_from_row
guest_by_peer peer = query (λ t. Option.map guest_from_row (find (has_peer peer) t.guests))

unfoldable pub guests : M (List GuestNode)
unfolding query guest_from_row
guests = query (λ t. map guest_from_row (order_by (λ (g h : GuestRecord). ltb g.id h.id) t.guests))

unfoldable pub touch_guest : Text → Time → M (Unit {0})
unfolding statement
touch_guest peer now = statement λ t. some (
  tt,
  record t {
    guests =
        update_where (has_peer peer) (λ g. record g { last_seen_at = some (to_secs now) }) t.guests;
  },
)

-- DELETE, with the test of the number of rows that it removed.
unfoldable pub remove_guest : ℕ → M (Unit {0})
unfolding statement
remove_guest number = do
  removed ← statement (λ t. some (
    any (has_number number) t.guests,
    record t { guests = delete_where (has_number number) t.guests },
  ))
  if removed then pure tt else fail (no_such_guest number)

abbrev pub set_revoked : ℕ → GuestRecord → GuestRecord
set_revoked now_secs g = record g { revoked_at = some now_secs }

unfoldable pub or_no_such : ℕ → Option GuestNode → M GuestNode
or_no_such number none = fail (no_such_guest number)
or_no_such number (some g) = pure g

-- UPDATE … WHERE id = ?2 AND revoked_at IS NULL, then the row.
unfoldable pub revoke_guest : ℕ → Time → M GuestNode
unfolding statement query or_no_such guest_from_row
revoke_guest number now = do
  statement (λ t. some (
    tt,
    record t {
      guests =
          update_where (λ g. has_number number g && not (is_some g.revoked_at))
            (set_revoked (to_secs now)) t.guests;
    },
  ))
  row ← query (λ t. Option.map guest_from_row (find (has_number number) t.guests))
  or_no_such number row
