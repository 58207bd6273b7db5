-- ===== src/Riverbank/Pairing.antt =====
-- The device pairing in internal/riverbank/handlers.go. Redis and encoding/json are parameters. The body
-- of a request is none if it cannot be read, and the new UUIDs are arguments. The audit entry of an
-- approval is left out.
pub mod Approval
use capyclaw.Prelude.{
  ℕ, String, String_eq, ◌==◌, ◌&&◌, ◌||◌, Bool, true, false, Option, none, some, List, [], ◌∷◌, Map,
  lookup, insert, concat, if◌then◌else◌,
}
use capyclaw.Action.{ok, panicked, Action}
use capyclaw.Riverbank.Errors.{not_found, bad_request, internal, with_message, Reply, write_error}

-- the commands GET, SET with an expiry of ten minutes, and DEL, where the handlers drop the errors of
-- the last two; the JSON text of a map from texts to texts, and the map that is read from a text, which
-- is none if Go leaves it nil: the text is no JSON object of texts, or is null
pub record Redis (W : Type 0) : Type 0 where
  pub get : String → W → Option String × W
  pub set : String → String → W → W
  pub del : String → W → W
  pub encode : Map String String → String
  pub decode : String → Option (Map String String)

pub record CodeRequest : Type 0 where
  pub device_name : String
  pub platform : String

pub record ApproveRequest : Type 0 where
  pub user_code : String
  pub action : String

-- `m[key]` of a map of texts
abbrev pub text_at : String → Map String String → String
text_at key m = elim (lookup key m) [ none ↦ "" | some t ↦ t ]

-- the fields of a map, of which one that is nil has none
abbrev pub fields : Option (Map String String) → Map String String
fields none = []
fields (some m) = m

abbrev pub pair_key : String → String
pair_key device_code = concat ("device:pair:" ∷ device_code ∷ [])

abbrev pub user_key : String → String
user_key user_code = concat ("device:user_code:" ∷ user_code ∷ [])

abbrev pub pairing_of : String → String → CodeRequest → String → Map String String
pairing_of device_code user_code req status =
    ("device_code", device_code)
    ∷ ("user_code", user_code)
    ∷ ("device_name", req.device_name)
    ∷ ("platform", req.platform)
    ∷ ("status", status)
    ∷ []

abbrev pub is_loopback : String → Bool
is_loopback ip = ip == "127.0.0.1" || (ip == "::1" || ip == "[::1]")

abbrev pub code_reply : String → String → Reply
code_reply device_code user_code = Reply.json 200 (
    ("device_code", device_code)
    ∷ ("user_code", user_code)
    ∷ ("expires_in", "600")
    ∷ ("poll_interval", "5")
    ∷ ("verification_uri", "/admin/device/approve")
    ∷ [])

-- the status that the request for an approval asks for
abbrev pub status_for : String → String
status_for action = if action == "approve" then "approved" else "denied"

module _ {W : Type 0} (redis : Redis W) where
  -- the two keys of a new pairing
  abbrev pub store_pairing : String → String → CodeRequest → W → W
  store_pairing device_code user_code req w = redis.set (user_key user_code) device_code (
      redis.set (pair_key device_code)
        (redis.encode (pairing_of device_code user_code req "pending")) w)

  -- the approval of a device on the same machine
  abbrev pub auto_approve : Bool → String → String → CodeRequest → W → W
  auto_approve auto device_code user_code req w =
      if auto
      then redis.set (pair_key device_code)
          (redis.encode (pairing_of device_code user_code req "approved")) w
      else w

  unfoldable pub token_reply : String → Map String String → W → Reply × W
  token_reply device_code pairing w =
      if text_at "status" pairing == "pending"
      then (Reply.json 200 (("status", "authorization_pending") ∷ []), w)
      else if text_at "status" pairing == "approved"
      then (
        Reply.json 200 (
            ("status", "approved")
            ∷ ("device_name", text_at "device_name" pairing)
            ∷ ("message", "device paired successfully")
            ∷ []),
        redis.del (user_key (text_at "user_code" pairing)) (redis.del (pair_key device_code) w),
      )
      else if text_at "status" pairing == "denied"
      then (Reply.json 403 (("error", "access_denied") ∷ []), redis.del (pair_key device_code) w)
      else (Reply.json 400 (("error", "unknown_status") ∷ []), w)

  unfoldable pub token_for : String → Option String → W → Reply × W
  unfolding token_reply
  token_for device_code none w = (Reply.json 400 (("error", "expired_token") ∷ []), w)
  token_for device_code (some data_text) w =
      token_reply device_code (fields (redis.decode data_text)) w

  -- the assignment of the status, which panics if the map is nil, and the rest of the handler
  unfoldable pub set_status : String → String → Option (Map String String) → Action W Reply
  set_status action device_code none w = (panicked, w)
  set_status action device_code (some read) w =
      let pairing = insert "status" (status_for action) read in
      (
        ok (
            Reply.json 200 (
              ("status", status_for action) ∷ ("device_name", text_at "device_name" pairing) ∷ [])),
        redis.set (pair_key device_code) (redis.encode pairing) w,
      )

  unfoldable pub approve_pairing : String → String → Option String → Action W Reply
  unfolding set_status
  approve_pairing action device_code none w =
      (ok (write_error (with_message not_found "pairing request expired")), w)
  approve_pairing action device_code (some data_text) w =
      set_status action device_code (redis.decode data_text) w

  unfoldable pub approve_device : String → Option String → Action W Reply
  unfolding approve_pairing
  approve_device action none w =
      (ok (write_error (with_message not_found "invalid or expired user code")), w)
  approve_device action (some device_code) w =
      let (found, w') = redis.get (pair_key device_code) w in
      approve_pairing action device_code found w'

-- the handlers, with Redis if the server has it
module _ {W : Type 0} where
  unfoldable pub new_pairing :
      Option (Redis W) → Bool → String → String → CodeRequest → W → Reply × W
  new_pairing none auto device_code user_code req w =
      (write_error (with_message internal "redis required for device pairing"), w)
  new_pairing (some redis) auto device_code user_code req w = (
    code_reply device_code user_code,
    auto_approve redis auto device_code user_code req
        (store_pairing redis device_code user_code req w),
  )

  -- `handleDeviceCode`, with the setting AutoApproveLoopback and the address of the client
  unfoldable pub handle_device_code :
      Option (Redis W) → Bool → String → String → String → Option CodeRequest → W → Reply × W
  unfolding new_pairing
  handle_device_code redis allowed ip device_code user_code none w =
      (write_error (with_message bad_request "invalid request body"), w)
  handle_device_code redis allowed ip device_code user_code (some req) w =
      if req.device_name == ""
      then (write_error (with_message bad_request "device_name is required"), w)
      else new_pairing redis (allowed && is_loopback ip) device_code user_code req w

  -- `handleDeviceToken`, with the device code of the body
  unfoldable pub handle_device_token : Option (Redis W) → Option String → W → Reply × W
  unfolding token_for
  handle_device_token redis none w =
      (write_error (with_message bad_request "invalid request body"), w)
  handle_device_token none (some device_code) w =
      (write_error (with_message internal "redis required"), w)
  handle_device_token (some redis) (some device_code) w =
      let (found, w') = redis.get (pair_key device_code) w in token_for redis device_code found w'

  -- `handleDeviceApprove`
  unfoldable pub handle_device_approve : Option (Redis W) → Option ApproveRequest → Action W Reply
  unfolding approve_device
  handle_device_approve redis none w =
      (ok (write_error (with_message bad_request "invalid request body")), w)
  handle_device_approve none (some req) w =
      (ok (write_error (with_message internal "redis required")), w)
  handle_device_approve (some redis) (some req) w =
      let (found, w') = redis.get (user_key req.user_code) w in
      approve_device redis req.action found w'
