-- ===== src/Host/Store/Writes.antt =====
-- What the other methods do to the tables, whatever statements fail.
use wispers_access.Prelude.{
  ℕ, ◌≡◌, ◌⊎◌, Bool, false, not, ◌&&◌, [], ◌∷◌, ◌++◌, none, some, Text, arith, any, is_some,
  update_where, delete_where, map,
}
use wispers_access.Host.Store.Db.{Time, to_secs, InviteRecord, GuestRecord, Tables, Db, External}
use wispers_access.Host.Store.Calls.{
  has_peer, has_hash, has_number, set_revoked, NewInvite, create_invite, touch_guest, remove_guest,
  revoke_guest,
}

-- The row that `create_invite` inserts.
abbrev pub invite_row : External → NewInvite → Time → Tables → InviteRecord
invite_row x new now t = record {
  id = x.next_rowid (map (λ (i : InviteRecord). i.id) t.invites);
  secret_hash = x.sha256 new.secret;
  user_id = new.user_id;
  node_name = new.node_name;
  created_at = to_secs now;
  expires_at = to_secs new.expires_at;
  consumed_at = none;
}

abbrev pub seen : Time → GuestRecord → GuestRecord
seen now g = record g { last_seen_at = some (to_secs now) }

abbrev pub live_number : ℕ → GuestRecord → Bool
live_number number g = has_number number g && not (is_some g.revoked_at)

module _ (d : Db) where
  pub create_invite_cases :
      (x : External) (new : NewInvite) (now : Time)
      → ((create_invite x new now d).1.tables ≡ d.tables)
        ⊎ ((any (has_hash (x.sha256 new.secret)) d.tables.invites ≡ false)
            × ((create_invite x new now d).1.tables ≡ record d.tables {
              invites = d.tables.invites ++ invite_row x new now d.tables ∷ [];
            }))
  unfolding create_invite
  create_invite_cases x new now = ground arith

  pub touch_guest_cases :
      (peer : Text) (now : Time)
      → ((touch_guest peer now d).1.tables ≡ d.tables)
        ⊎ ((touch_guest peer now d).1.tables
            ≡ record d.tables { guests = update_where (has_peer peer) (seen now) d.tables.guests })
  unfolding touch_guest
  touch_guest_cases peer now = ground arith

  pub remove_guest_cases :
      (number : ℕ)
      → ((remove_guest number d).1.tables ≡ d.tables)
        ⊎ ((remove_guest number d).1.tables
            ≡ record d.tables { guests = delete_where (has_number number) d.tables.guests })
  unfolding remove_guest
  remove_guest_cases number = ground arith

  pub revoke_guest_cases :
      (number : ℕ) (now : Time)
      → ((revoke_guest number now d).1.tables ≡ d.tables)
        ⊎ ((revoke_guest number now d).1.tables ≡ record d.tables {
          guests = update_where (live_number number) (set_revoked (to_secs now)) d.tables.guests;
        })
  unfolding revoke_guest
  revoke_guest_cases number now = ground arith
