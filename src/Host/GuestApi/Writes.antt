-- ===== src/Host/GuestApi/Writes.antt =====
-- Which requests write to the database, and how they are answered then.
use wispers_access.Host.Store.Calls.{guest_from_row, remove_guest}
use wispers_access.Host.Store.Writes.{remove_guest_cases}
use wispers_access.Prelude.{false, text_eq_iff}
use wispers_access.Host.GuestApi.{
  at_guest, at_activation, at_events, at_share, Formats, Method, Peer, Request, Response, Route,
  StreamContext, activate, activation_path, activation_route, activation_secret, client_version,
  delete_found, delete_guest, delete_method, events_route, find_route, get_method, guest_path,
  guest_removed, guest_route, is_authorized, method_not_allowed, no_route, other_method,
  post_activation, post_method, redeemed, respond, route, share_response, share_route,
}
use wispers_access.Host.Store.Calls.{
  GuestNode, Redemption, activated, guest_by_peer, has_number, has_peer, redeem_invite, refused,
}
use wispers_access.Host.Store.Db.{
  Db, Error, External, GuestRecord, Time, next_fault, query, to_secs,
}
use wispers_access.Host.Store.Effects.{Binds, later, redeem_invite_cases}
use wispers_access.Prelude.{
  Bool-cases, Option, Option-cases, Result, Text, arith, delete_where, err, find, inl, inr, none,
  ok, refl, some, text_eq, true, ◌||◌, ◌≡◌, ◌⊎◌,
}

module _ (x : External) (formats : Formats) (req : Request) (ctx : StreamContext) (peer : Peer)
    (now : Time) where
  -- A new guest node: the request is an activation, and it is answered with the share.
  pub record Activates (d : Db) (r : Result Error Response × Db) : Type 0 where
    pub method_is : req.method ≡ post_method
    pub path_is : text_eq req.path activation_path ≡ true
    pub secret : Text
    pub secret_is : activation_secret x formats req.body ≡ some secret
    pub binds :
        Binds x
          (x.sha256 secret)
          peer.peer_id
          (to_secs now)
          d.tables
          r.1.tables
          (redeem_invite x secret peer.peer_id now d).0
    pub response : r.0 ≡ ok (share_response ctx)

  -- A guest node that leaves: the request asks for it, and the row is the caller's.
  pub record Leaves (d : Db) (r : Result Error Response × Db) : Type 0 where
    pub method_is : req.method ≡ delete_method
    pub path_is : text_eq req.path guest_path ≡ true
    pub authorized : is_authorized peer ≡ true
    pub row : GuestRecord
    pub found : find (has_peer peer.peer_id) d.tables.guests ≡ some row
    pub tables :
        r.1.tables ≡ record d.tables { guests = delete_where (has_number row.id) d.tables.guests }

find_route-activation :
    (m : Method) (path : Text)
    → find_route m path ≡ activation_route
    → (m ≡ post_method) × (text_eq path activation_path ≡ true)
unfolding find_route at_share at_events at_activation at_guest
find_route-activation get_method path h = ground arith
find_route-activation post_method path h = ground arith
find_route-activation delete_method path h = ground arith
find_route-activation other_method path h = ground arith

find_route-guest :
    (m : Method) (path : Text)
    → find_route m path ≡ guest_route
    → (m ≡ delete_method) × (text_eq path guest_path ≡ true)
unfolding find_route at_share at_events at_activation at_guest
find_route-guest get_method path h = ground arith
find_route-guest post_method path h = ground arith
find_route-guest delete_method path h = ground arith
find_route-guest other_method path h = ground arith

redeemed-state :
    (ctx : StreamContext) (r : Result Error Redemption) (d : Db) → (redeemed ctx r d).1 ≡ d
unfolding redeemed
redeemed-state ctx (ok (activated guest)) d = refl
redeemed-state ctx (ok (refused why)) d = refl
redeemed-state ctx (err e) d = refl

redeemed-activated :
    (ctx : StreamContext) (r : Result Error Redemption) (guest : GuestNode) (d : Db)
    → r ≡ ok (activated guest)
    → (redeemed ctx r d).0 ≡ ok (share_response ctx)
unfolding redeemed
redeemed-activated ctx r guest d e = rw e

guest_removed-state : (r : Result Error (Unit {0})) (d : Db) → (guest_removed r d).1 ≡ d
unfolding guest_removed
guest_removed-state (ok u) d = refl
guest_removed-state (err e) d = refl

delete_found_cases :
    (row : GuestRecord) (d : Db)
    → ((delete_found (ok (some (guest_from_row row))) d).1.tables ≡ d.tables)
      ⊎ ((delete_found (ok (some (guest_from_row row))) d).1.tables
          ≡ record d.tables { guests = delete_where (has_number row.id) d.tables.guests })
unfolding delete_found guest_from_row
delete_found_cases row d =
    let result = remove_guest row.id d in
    let same = guest_removed-state result.0 result.1 in
    elim (remove_guest_cases d row.id) [ inl e ↦ inl (rw same e) | inr e ↦ inr (rw same e) ]

not_activation :
    (path : Text) → text_eq path guest_path ≡ true → text_eq path activation_path ≡ false
unfolding text_eq
not_activation path p = rw ((text_eq_iff path guest_path).0 p)

-- What `delete_guest` does: nothing, or it deletes the row that the peer has.
delete_guest_cases :
    (peer_id : Text) (d : Db)
    → ((delete_guest peer_id d).1.tables ≡ d.tables)
      ⊎ ((row : GuestRecord) × (find (has_peer peer_id) d.tables.guests ≡ some row)
          × ((delete_guest peer_id d).1.tables
              ≡ record d.tables { guests = delete_where (has_number row.id) d.tables.guests }))
unfolding delete_guest guest_by_peer query later
delete_guest_cases peer_id d = elim (Bool-cases (next_fault d.faults)) [
  | inl e ↦ inl (rw e (unfold delete_found in refl))
  | inr e ↦ elim (Option-cases (find (has_peer peer_id) d.tables.guests)) [
    | inl f ↦ inl (rw (e, f) (unfold delete_found in refl))
    | inr (row, f) ↦ elim (delete_found_cases row (later d)) [
      | inl k ↦ inl (rw (e, f) k)
      | inr k ↦ inr (row, f, rw (e, f) k)
    ]
  ]
]

module _ (x : External) (formats : Formats) (req : Request) (ctx : StreamContext) (peer : Peer)
    (now : Time) (d : Db) where
  abbrev pub Written : Result Error Response × Db → Type 0
  Written r =
      (r.1.tables ≡ d.tables)
      ⊎ Activates x formats req ctx peer now d r
      ⊎ Leaves x formats req ctx peer now d r

  activate-Written :
      (o : Option Text)
      → activation_secret x formats req.body ≡ o
      → req.method ≡ post_method
      → text_eq req.path activation_path ≡ true
      → Written (activate x formats ctx peer.peer_id now o d)
  unfolding activate
  activate-Written none s m p = inl refl
  activate-Written (some secret) s m p =
      let result = redeem_invite x secret peer.peer_id now d in
      let same = redeemed-state ctx result.0 result.1 in
      elim (redeem_invite_cases x secret peer.peer_id now d) [
        | inl e ↦ inl (rw same e)
        | inr b ↦ inr (
            inl (record {
              method_is = m;
              path_is = p;
              secret = secret;
              secret_is = s;
              binds = rw same b;
              response = redeemed-activated ctx result.0 _ result.1 b.reply;
            }))
      ]

  respond-Written :
      (r : Route)
      → find_route req.method req.path ≡ r
      → (is_authorized peer || text_eq req.path activation_path) ≡ true
      → Written (respond x formats req ctx peer now r d)
  unfolding respond post_activation
  respond-Written share_route e a = inl refl
  respond-Written events_route e a = inl refl
  respond-Written activation_route e a =
      let (m, p) = find_route-activation req.method req.path e in activate-Written _ refl m p
  respond-Written guest_route e a =
      let (m, p) = find_route-guest req.method req.path e in
      elim (delete_guest_cases peer.peer_id d) [
        | inl same ↦ inl same
        | inr (row, f, t) ↦ inr (
            inr (record {
              method_is = m;
              path_is = p;
              authorized = ground (arith, a, not_activation req.path p);
              row = row;
              found = f;
              tables = t;
            }))
      ]
  respond-Written method_not_allowed e a = inl refl
  respond-Written no_route e a = inl refl

  -- A request changes no row of the database but in two cases, whatever statements fail: a `POST` to
  -- /v1/activation whose body holds the secret of a valid invite binds the peer, and then the
  -- response is the share; a `DELETE` of /v1/guest by an activated peer deletes that peer's row.
  pub route-Written : Written (route x formats req ctx peer now d)
  unfolding route
  route-Written = elim (Bool-cases (formats.below_minimum (client_version req.user_agent))) [
    | inl e ↦ inl (rw e)
    | inr e ↦ elim (Bool-cases (is_authorized peer || text_eq req.path activation_path)) [
      | inl a ↦ rw (e, a) (respond-Written (find_route req.method req.path) refl a)
      | inr a ↦ inl (rw (e, a))
    ]
  ]
