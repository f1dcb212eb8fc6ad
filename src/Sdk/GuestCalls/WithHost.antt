-- ===== src/Sdk/GuestCalls/WithHost.antt =====
-- A guest's calls, sdk/src/guest_node.rs, lines 261 to 390, to the host's API, waserver/src/guest_api.rs,
-- lines 47 to 236, over a stream that breaks neither the request nor the response.
use wispers_access.Host.Config.Hash.{config_hash, config_hash-bound}
use wispers_access.Host.GuestApi
use wispers_access.Host.GuestApi.{
  get_method, share_path, redeemed, refuse_activation, database_error, error, activation_secret,
  post_activation, share_info, Formats, Peer, Request, Response, StreamContext, client_version,
  find_route, get_share, is_authorized, respond, route, share_response, up_to_date,
}
use wispers_access.Host.Store.Db.{External, Db, Error}
use wispers_access.Prelude.{
  List, [], ok_or, codes, ◌>>=◌, Bool, Bool-cases, Option, Result, Text, err, false, if◌then◌else◌,
  inl, inr, ltb, none, ok, refl, some, true, ℕ, ◌==◌, ◌≡◌,
}
use wispers_access.Wire.Share.{ShareInfo}
use wispers_access.Host.Store.Calls.{Redemption, activated, refused, redeem_invite}
use wispers_access.Sdk.GuestCalls.{
  request_to, activate, leave, too_old, CallError, refusal, activation_refused, invite_refused,
  failed, activation_answer, leave_answer, refused_body, Exchange, client_user_agent, fetch_info,
  guest_api_request, read_share, share_answer, tag_of,
}
use wispers_access.Wire.Activation
use wispers_access.Wire.Activation.{
  ActivationError, already_guest, invite_consumed, invite_expired, invite_unknown, malformed,
}
use wispers_access.Wire.ConfigHash.{etag}
use wispers_access.Wire.ConfigHash.Tags.{matches_if_none_match_one}

abbrev answered : Result Error Response → Option Response
answered (ok resp) = some resp
answered (err e) = none

abbrev pub known_is : ℕ → Option ℕ → Bool
known_is h none = false
known_is h (some k) = k == h

abbrev pub fits_u64 : Option ℕ → Bool
fits_u64 none = true
fits_u64 (some h) = ltb h 0x1_0000_0000_0000_0000

up_to_date-tag_of :
    (ctx : StreamContext) (known : Option ℕ)
    → fits_u64 known ≡ true
    → up_to_date ctx (tag_of known) ≡ known_is (config_hash ctx.config) known
unfolding up_to_date etag
up_to_date-tag_of ctx none b = refl
up_to_date-tag_of ctx (some h) b =
    matches_if_none_match_one (config_hash ctx.config) h (config_hash-bound ctx.config) b

module _ (x : External) (formats : Formats) (ctx : StreamContext) (peer : Peer) (now : ℕ) (d : Db)
    (version : Text) where
  -- The host, on its store, as the guest's far end.
  abbrev pub host : Exchange
  host req = answered (route x formats req ctx peer now d).0

  share_answer-get_share :
      (req : Request) (known : Option ℕ)
      → up_to_date ctx req.if_none_match ≡ known_is (config_hash ctx.config) known
      → share_answer (get_share req ctx)
        ≡ ok (
            if known_is (config_hash ctx.config) known
            then none
            else some (share_info ctx.config ctx.transport))
  unfolding share_answer get_share share_response read_share
  share_answer-get_share req known e = elim (Bool-cases (known_is (config_hash ctx.config) known)) [
    | inl f ↦ rw (e, f) refl
    | inr f ↦ rw (e, f) refl
  ]

  -- A guest that the host knows and whose version it serves gets the share if the config hash that
  -- it knows is not that of the host's config, and else that there is nothing new.
  pub fetch_info-route :
      (known : Option ℕ)
      → formats.below_minimum (client_version (some (client_user_agent version))) ≡ false
      → is_authorized peer ≡ true
      → fits_u64 known ≡ true
      → fetch_info version host known
        ≡ ok (
            if known_is (config_hash ctx.config) known
            then none
            else some (share_info ctx.config ctx.transport))
  unfolding fetch_info guest_api_request route find_route respond
  fetch_info-route known v a b =
      rw (v, a)
        (share_answer-get_share
          (record (request_to get_method share_path (tag_of known) (some [])) {
            user_agent = some (client_user_agent version);
          })
          known (up_to_date-tag_of ctx known b))

  -- A guest whose version the host no longer serves is told so by each of the three calls, whoever
  -- it is and whatever it sends.
  pub too_old-route :
      (known : Option ℕ) (body : List ℕ)
      → formats.below_minimum (client_version (some (client_user_agent version))) ≡ true
      → (fetch_info version host known ≡ err too_old)
        × ((activate version host body ≡ err too_old) × (leave version host ≡ err too_old))
  unfolding fetch_info activate leave guest_api_request route share_answer activation_answer
      leave_answer error
  too_old-route known body v = (rw v refl, (rw v refl, rw v refl))

  -- What the guest makes of a redemption of the secret that it sent.
  abbrev pub told : Result Error Redemption → Result CallError ShareInfo
  told (ok (activated guest)) = ok (share_info ctx.config ctx.transport)
  told (ok (refused invite_unknown)) =
      err (invite_refused (codes "This invite is no longer valid. Ask for a new one."))
  told (ok (refused invite_expired)) =
      err (invite_refused (codes "This invite has expired. Ask for a new one."))
  told (ok (refused invite_consumed)) =
      err (invite_refused (codes "This invite has been used already. Ask for a new one."))
  told (ok (refused malformed)) = err (activation_refused (codes "malformed"))
  told (ok (refused ActivationError.revoked)) = err (activation_refused (codes "revoked"))
  told (ok (refused already_guest)) = err (activation_refused (codes "already-guest"))
  told (err e) = err (activation_refused (codes "state database error"))

  told-redeemed :
      (r : Result Error Redemption) (d' : Db)
      → (ok_or (answered (redeemed ctx r d').0) failed >>= activation_answer) ≡ told r
  unfolding redeemed activation_answer share_response refuse_activation read_share refused_body
      error database_error Activation.status Activation.as_str Activation.parse refusal
  told-redeemed (ok (activated guest)) d' = refl
  told-redeemed (ok (refused malformed)) d' = refl
  told-redeemed (ok (refused invite_unknown)) d' = refl
  told-redeemed (ok (refused invite_expired)) d' = refl
  told-redeemed (ok (refused invite_consumed)) d' = refl
  told-redeemed (ok (refused ActivationError.revoked)) d' = refl
  told-redeemed (ok (refused already_guest)) d' = refl
  told-redeemed (err e) d' = refl

  -- When the host serves the guest's version and reads the secret in the body, `activate` returns
  -- the share if the redemption activates the guest. An invite that is unknown, expired or used is
  -- refused with the sentence of its own that says so, and another refusal and a failure of the
  -- host's database with its name.
  pub activate-route :
      (body : List ℕ) (secret : Text)
      → formats.below_minimum (client_version (some (client_user_agent version))) ≡ false
      → activation_secret x formats (some body) ≡ some secret
      → activate version host body ≡ told (redeem_invite x secret peer.peer_id now d).0
  unfolding activate guest_api_request route find_route respond post_activation GuestApi.activate
  activate-route body secret v e = elim (Bool-cases (is_authorized peer)) [
    | inl a ↦
        rw (v, a, e)
          (told-redeemed (redeem_invite x secret peer.peer_id now d).0
            (redeem_invite x secret peer.peer_id now d).1)
    | inr a ↦
        rw (v, a, e)
          (told-redeemed (redeem_invite x secret peer.peer_id now d).0
            (redeem_invite x secret peer.peer_id now d).1)
  ]
