-- ===== src/Sdk/GuestCalls.antt =====
-- sdk/src/guest_node.rs, lines 261 to 390: the calls of the guest API. The exchange of one request
-- for one response over a stream is a parameter; a response's body is the value that the host
-- serialised, which `serde_json` reads back.
pub mod WithHost
use wispers_access.Host.GuestApi.{
  Body, Method, Request, Response, activation_path, api_error, delete_method, events, get_method,
  guest_path, no_body, post_method, share, share_path,
}
use wispers_access.Prelude.{
  List, Option, Result, Text, [], codes, err, if◌then◌else◌, none, ok, ok_or, some, ℕ, ◌++◌, ◌==◌,
  ◌>>=◌, ◌∷◌,
}
use wispers_access.Wire.Activation.{
  ActivationError, already_guest, invite_consumed, invite_expired, invite_unknown, malformed,
}
use wispers_access.Wire.Activation
use wispers_access.Wire.ConfigHash.{etag}
use wispers_access.Wire.Share.{ShareInfo}

-- One request over a fresh CTRL stream: none when the stream, the handshake or the reading fails.
abbrev pub Exchange : Type 0
Exchange = Request → Option Response

-- `anyhow::Error` as the calls make it: a broken exchange or body, `ClientTooOldError`, a status
-- that the call does not expect, an `InviteRefusedError` with its sentence, and another reason.
pub data CallError : Type 0 where
  failed too_old : CallError
  unexpected : ℕ → CallError
  invite_refused activation_refused : Text → CallError

unfoldable pub client_user_agent : Text → Text
client_user_agent version = codes "wispers-access-sdk" ++ (b'/' ∷ version)

unfoldable pub guest_api_request : Text → Exchange → Request → Result CallError Response
unfolding client_user_agent
guest_api_request version exchange req =
    ok_or (exchange (record req { user_agent = some (client_user_agent version) })) failed

unfoldable pub read_share : Body → Result CallError ShareInfo
read_share no_body = err failed
read_share events = err failed
read_share (share info) = ok info
read_share (api_error code) = err failed

abbrev pub tag_of : Option ℕ → Option Text
tag_of none = none
tag_of (some h) = some (etag h)

abbrev pub request_to : Method → Text → Option Text → Option (List ℕ) → Request
request_to method path if_none_match body = record {
  method = method;
  path = path;
  user_agent = none;
  if_none_match = if_none_match;
  body = body;
}

unfoldable pub share_answer : Response → Result CallError (Option ShareInfo)
unfolding read_share
share_answer resp =
    if resp.status == 304
    then ok none
    else if resp.status == 200
    then (read_share resp.body >>= λ info. ok (some info))
    else if resp.status == 426
    then err too_old
    else err (unexpected resp.status)

unfoldable pub fetch_info : Text → Exchange → Option ℕ → Result CallError (Option ShareInfo)
unfolding guest_api_request share_answer etag
fetch_info version exchange known =
    guest_api_request version exchange (request_to get_method share_path (tag_of known) (some []))
    >>= share_answer

-- What to tell the user about an invite that the host refused.
unfoldable pub refusal : ActivationError → Option Text
refusal malformed = none
refusal invite_unknown = some (codes "This invite is no longer valid. Ask for a new one.")
refusal invite_expired = some (codes "This invite has expired. Ask for a new one.")
refusal invite_consumed = some (codes "This invite has been used already. Ask for a new one.")
refusal ActivationError.revoked = none
refusal already_guest = none

abbrev pub refusal_of : Option ActivationError → Option Text
refusal_of none = none
refusal_of (some why) = refusal why

abbrev pub refused_with : Text → Option Text → CallError
refused_with code none = activation_refused code
refused_with code (some sentence) = invite_refused sentence

unfoldable pub refused_body : ℕ → Body → CallError
unfolding refusal Activation.parse
refused_body code no_body = unexpected code
refused_body code events = unexpected code
refused_body code (share info) = unexpected code
refused_body code (api_error name) = refused_with name (refusal_of (Activation.parse name))

unfoldable pub activation_answer : Response → Result CallError ShareInfo
unfolding read_share refused_body
activation_answer resp =
    if resp.status == 200
    then read_share resp.body
    else if resp.status == 426
    then err too_old
    else err (refused_body resp.status resp.body)

-- `body` is what `serde_json` makes of the secret.
unfoldable pub activate : Text → Exchange → List ℕ → Result CallError ShareInfo
unfolding guest_api_request activation_answer
activate version exchange body =
    guest_api_request version exchange (request_to post_method activation_path none (some body))
    >>= activation_answer

unfoldable pub leave_answer : Response → Result CallError (Unit {0})
leave_answer resp =
    if resp.status == 204
    then ok tt
    else if resp.status == 426
    then err too_old
    else err (unexpected resp.status)

unfoldable pub leave : Text → Exchange → Result CallError (Unit {0})
unfolding guest_api_request leave_answer
leave version exchange =
    guest_api_request version exchange (request_to delete_method guest_path none (some []))
    >>= leave_answer
