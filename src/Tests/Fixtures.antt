-- ===== src/Tests/Fixtures.antt =====
-- Stand-ins for the crates, the clock and the user.
use passport_passwords.Base.{
  pos, ℕ, zero, suc, ◌+◌, ◌-◌, ◌≡◌, refl, Text, text, [], ◌∷◌, ◌++◌, Bool, false, none, some, ok,
  length, take, arith, length-append, take-append_left,
}
use passport_passwords.Crypto.{Crypto, IsCrypto}
use passport_passwords.Record.{CredentialRecord, Ambient}
use passport_passwords.Origin.{UrlParser}
use passport_passwords.Approval.{ApprovalDecision}
use passport_passwords.Session.{Session, active}
use passport_passwords.Store.{CredentialStore}
use passport_passwords.Keystore.Trait.{KeystoreState, keystore_store}
use passport_passwords.Engine.{World, Engine, default_idle_ms}

abbrev pub bytes_of : ℕ → ℕ → Text
bytes_of zero b = []
bytes_of (suc n) b = b ∷ bytes_of n b

-- A cipher that only appends a tag, and a key exchange whose every key is the same.
abbrev pub toy_crypto : Crypto
toy_crypto = record {
  encrypt = λ key nonce plain. some (plain ++ bytes_of 16 0);
  decrypt = λ key nonce cipher. some (take (length cipher - 16) cipher);
  hkdf = λ secret info. secret;
  hmac = λ key bytes. some bytes;
  random_secret = λ at. (bytes_of 32 1, at + 32);
  public_key = λ secret. bytes_of 32 9;
  diffie_hellman = λ secret public. bytes_of 32 7;
  hex_encode = λ bytes. bytes;
  hex_decode = λ hex. some hex;
  os_rng = λ at. 7;
  patience = 1;
}

undo_tag :
    (plain : Text) → take (length (plain ++ bytes_of 16 0) - 16) (plain ++ bytes_of 16 0) ≡ plain
undo_tag plain =
    let long : length (plain ++ bytes_of 16 0) ≡ length plain + 16 =
      length-append plain (bytes_of 16 0) in
    let short : length (plain ++ bytes_of 16 0) - 16 ≡ length plain = ground (arith, long) in
    rw short (take-append_left (length plain) plain (bytes_of 16 0) refl)

pub toy_laws : IsCrypto toy_crypto
toy_laws = record {
  decrypt-encrypt = λ key nonce plain cipher e. ground (arith, undo_tag plain);
  length-encrypt = λ key nonce plain cipher e. ground (arith, length-append plain (bytes_of 16 0));
  hex_decode-hex_encode = λ bytes. refl;
  length-public_key = λ secret. refl;
  diffie_hellman_comm = λ a b. refl;
  os_rng-lt = λ i. omega arith;
}

abbrev pub toy_env : Ambient
toy_env = record { uuid_v4 = λ at. 100 + at; now_secs = λ at. 1000 + at }

abbrev pub alice : CredentialRecord
alice = record {
  id = 1;
  origin = text "https://a.io";
  username = text "alice";
  password = text "secret";
  label = text "A";
  color = pos 5;
  archived = false;
  notes = none;
  created_at = 10;
  last_used_at = 10;
}

abbrev pub toy_store : CredentialStore
toy_store = keystore_store toy_env

abbrev pub toy_session : Session
toy_session = record {
  state = active;
  key = some (bytes_of 32 7);
  last_nonce = 3;
  last_activity_ms = 1000;
}

abbrev pub toy_world : World KeystoreState (Unit {0})
toy_world = record {
  store = record { keystore = record { records = alice ∷ []; key = [] }; at = 0 };
  session = toy_session;
  rng = 0;
  outer = tt;
}

-- Every input is the host of an https URL.
abbrev pub toy_parser : UrlParser
toy_parser input = ok (record {
  scheme = text "https";
  username = [];
  password = none;
  host_str = some input;
  port = none;
})

-- The engine with a user who always decides the same, and a hook that always answers the same.
abbrev pub toy_engine : ApprovalDecision → Bool → Engine toy_store
toy_engine decision persisted = record {
  crypto = toy_crypto;
  url_parse = toy_parser;
  idle_ms = default_idle_ms;
  Outer = Unit;
  request = λ req w. (decision, w);
  cancel_pending = λ w. w;
  on_write = λ w. (persisted, w);
}
