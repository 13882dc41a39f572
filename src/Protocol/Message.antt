-- ===== src/Protocol/Message.antt =====
-- logic/vaults-bridge-protocol/src/message.rs: the requests and responses of the wire. Their JSON
-- form is that of `serde`, which is not modelled.
use passport_passwords.Base.{ℕ, String, Text, List, Option, Bool, true}

pub record EstablishSessionParams : Type 0 where
  pub host_pubkey : Text

pub record EstablishSessionResult : Type 0 where
  pub device_pubkey : Text

pub record ListOriginsResult : Type 0 where
  pub origins : List Text

pub record ListCredentialsParams : Type 0 where
  pub origin : Text

pub record WireCredentialSummary : Type 0 where
  pub username : Text
  pub label : Text
  pub last_used_at : ℕ

pub record ListCredentialsResult : Type 0 where
  pub credentials : List WireCredentialSummary

pub record ReleaseCredentialParams : Type 0 where
  pub origin : Text
  pub username_hint : Option Text
  pub request_nonce : ℕ

pub record ReleaseCredentialResult : Type 0 where
  pub username : Text
  pub password_sealed : Text

pub record StoreCredentialParams : Type 0 where
  pub origin : Text
  pub username : Text
  pub label : Option Text
  pub password_sealed : Text
  pub request_nonce : ℕ

pub data StoreAction : Type 0 where
  saved updated restored_and_updated : StoreAction

pub record StoreCredentialResult : Type 0 where
  pub action : StoreAction

pub record CharsetHint : Type 0 where
  pub letters : Bool
  pub digits : Bool
  pub symbols : Bool

-- `CharsetHint::default`, and the default of each field
abbrev pub default_true : Bool
default_true = true

abbrev pub default_charset : CharsetHint
default_charset = record { letters = default_true; digits = default_true; symbols = default_true }

pub record GeneratePasswordParams : Type 0 where
  pub origin : Text
  pub username : Text
  pub label : Option Text
  pub length : Option ℕ
  pub charset : Option CharsetHint
  pub request_nonce : ℕ

pub record GeneratePasswordResult : Type 0 where
  pub password_sealed : Text
  pub action : StoreAction

pub data Method : Type 0 where
  ping : Method
  establish_session : EstablishSessionParams → Method
  list_origins : Method
  list_credentials : ListCredentialsParams → Method
  release_credential : ReleaseCredentialParams → Method
  store_credential : StoreCredentialParams → Method
  generate_password : GeneratePasswordParams → Method
  cancel : Method

pub record Request : Type 0 where
  pub id : Text
  pub method : Method

pub data ErrorCode : Type 0 where
  invalid_request unknown_method unknown_origin user_rejected : ErrorCode
  timeout not_unlocked session_expired nonce_reused : ErrorCode
  bad_policy multiple_matches internal : ErrorCode

-- `code as i32`
unfoldable pub code_number : ErrorCode → ℕ
code_number invalid_request = 1
code_number unknown_method = 2
code_number unknown_origin = 3
code_number user_rejected = 4
code_number timeout = 5
code_number not_unlocked = 6
code_number session_expired = 7
code_number nonce_reused = 8
code_number bad_policy = 9
code_number multiple_matches = 10
code_number internal = 99

-- The messages are fixed texts of the source.
pub record ErrorPayload : Type 0 where
  pub code : ℕ
  pub message : String

pub data ResponseBody : Type 0 where
  pong : Bool → ResponseBody
  session_established : EstablishSessionResult → ResponseBody
  origins_listed : ListOriginsResult → ResponseBody
  credentials_listed : ListCredentialsResult → ResponseBody
  credential_released : ReleaseCredentialResult → ResponseBody
  credential_stored : StoreCredentialResult → ResponseBody
  password_generated : GeneratePasswordResult → ResponseBody
  empty : ResponseBody

pub data Response : Type 0 where
  success : Text → ResponseBody → Response
  failure : Text → ErrorPayload → Response
