-- ===== src/Record.antt =====
-- logic/vaults-bridge-core/src/record.rs: a stored credential.
use passport_passwords.Base.{
  ℤ, pos, ℕ, Text, Bool, false, Option, none, is_empty, [], if◌then◌else◌, not,
}

-- A UUID is the number of its 128 bits. A colour is an `i32`; the colours that the code computes
-- are not negative.
pub record CredentialRecord : Type 0 where
  pub id : ℕ
  pub origin : Text
  pub username : Text
  pub password : Text
  pub label : Text
  pub color : ℤ
  pub archived : Bool
  pub notes : Option Text
  pub created_at : ℕ
  pub last_used_at : ℕ

-- What the records are made from, as tapes over the number of readings so far: `Uuid::new_v4` and
-- the system clock in seconds.
pub record Ambient : Type 0 where
  pub uuid_v4 : ℕ → ℕ
  pub now_secs : ℕ → ℕ

abbrev pub default_color : ℤ
default_color = pos 5

-- `CredentialRecord::new`, at one reading of the tapes
unfoldable pub new : Ambient → ℕ → Text → Text → Text → CredentialRecord
new env at origin username password = record {
  id = env.uuid_v4 at;
  origin = origin;
  username = username;
  password = password;
  label = [];
  color = default_color;
  archived = false;
  notes = none;
  created_at = env.now_secs at;
  last_used_at = env.now_secs at;
}

-- `CredentialRecord::display_label`
unfoldable pub display_label : CredentialRecord → Text
display_label r = if not (is_empty r.label) then r.label else r.origin
