-- ===== src/Tests/VaultRuns.antt =====
-- Runs of the callbacks of the user interface, and of the disk under them.
use passport_passwords.Base.{
  pos, Text, text, [], ◌∷◌, ◌≡◌, ◌⊎◌, refl, true, false, none, some, ok, map, arith, text_eq,
}
use passport_passwords.Base.Trim.{trim}
use passport_passwords.Crypto.{fill_bytes}
use passport_passwords.Origin.{parse, origin_of, to_lower}
use passport_passwords.Record
use passport_passwords.Keystore
use passport_passwords.Keystore.{Keystore, derive_key, add, edit, modify, get}
use passport_passwords.Keystore.Sealed.{seal_keystore, seal}
use passport_passwords.App.Disk.{hosted_store, load_keystore, persist_keystore}
use passport_passwords.App.Disk.Hosted.{File, Files, hosted_write}
use passport_passwords.App.Disk.Atomic.{
  IsDurable, Finished, Untouched, hosted_write_atomic, hosted_store-IsKeystoreStore,
}
use passport_passwords.App.Fields.{validate_new_fields, validate_edit_fields}
use passport_passwords.App.Vault.{
  Platform, Screen, App, refresh_credentials, on_save_new, save_canonical, commit, finish_editing,
  set_editing_error, on_edit_save,
}
use passport_passwords.App.Vault.Importing.{picked, pick_and_parse}
use passport_passwords.App.Vault.Capped.{All, Offered, pick_and_parse-Offered}
use passport_passwords.App.Vault.Saved.{IsCapped, forms-Capped}
use passport_passwords.App.Vault.Sync.Events.{
  UiEvent, save_new, callback, callbacks, callbacks-InSync,
}
use passport_passwords.Tests.Fixtures.{toy_crypto, toy_laws, toy_env, toy_parser, bytes_of, alice}
use passport_passwords.Tests.JsonFixture.{toy_json, toy_json-IsJson}

abbrev pub toy_platform : Platform
toy_platform = record {
  crypto = toy_crypto;
  json = toy_json;
  env = toy_env;
  url_parse = toy_parser;
  store = hosted_store;
  display = record { to_lowercase = λ s. s; show_uuid = λ id. [] };
  parse_uuid = λ s. some 1;
}

abbrev blank : Screen
blank = record {
  alive = true;
  archive_mode = false;
  credentials = [];
  live = 0;
  archived = 0;
  next_default_color = pos 0;
  editing_error_field = [];
  editing_error = [];
  turns = [];
  import_source = [];
  import_error = [];
  import_count = 0;
  import_summary = record { imported = 0; skipped = 0; replaced = 0 };
  backup_error = [];
  backup_success = [];
  backup_restore_count = 0;
}

abbrev pub master : Text
master = bytes_of 32 7

-- No keystore on the disk yet, and the first write is cut after it has written five bytes.
abbrev pub fresh : App toy_platform
fresh = record {
  keystore = record { records = []; key = derive_key toy_crypto master };
  disk = (
    record { dir = false; new_file = none; main_file = none; main_on_disk = none },
    some (2, 5) ∷ [],
  );
  rng = 0;
  at = 0;
  screen = blank;
  search = [];
  pending_import = none;
  pending_restore = none;
}

abbrev save_alice : UiEvent
save_alice = save_new (text "a.io") (text "alice") (text "secret") (text "A") (pos 3)

abbrev saved : App toy_platform
saved = elim (callbacks toy_platform (save_alice ∷ save_alice ∷ []) fresh) [
  | none ↦ fresh
  | some b ↦ b
]

-- The first save fails and leaves nothing, the second one stays.
saved_run : map (λ r. r.id) saved.keystore.records ≡ 101 ∷ []
unfolding callback on_save_new save_canonical commit persist_keystore seal_keystore seal fill_bytes
    hosted_write validate_new_fields validate_edit_fields trim parse origin_of to_lower text_eq add
    Record.new finish_editing set_editing_error refresh_credentials
saved_run = refl

pub fresh_loads :
    load_keystore toy_crypto toy_json hosted_store fresh.disk master ≡ ok fresh.keystore
unfolding load_keystore Keystore.new
fresh_loads = refl

callbacks-InSync_example :
    (b : App toy_platform) × (callbacks toy_platform (save_alice ∷ save_alice ∷ []) fresh ≡ some b)
    × (load_keystore toy_crypto toy_json hosted_store b.disk master ≡ ok b.keystore)
callbacks-InSync_example =
    callbacks-InSync toy_platform toy_laws toy_json-IsJson hosted_store-IsKeystoreStore master
      (λ i j e. omega arith) (save_alice ∷ save_alice ∷ []) fresh fresh_loads

abbrev old_file : File
old_file = record { bytes = text "old"; synced = true }

abbrev old_files : Files
old_files = record {
  dir = true;
  new_file = none;
  main_file = some old_file;
  main_on_disk = some old_file;
}

old_files-IsDurable : IsDurable old_files
old_files-IsDurable true n = refl
old_files-IsDurable false n = refl

hosted_write_atomic_example :
    let (done, g) = hosted_write none (text "new") old_files in
    ((done ≡ true) × Finished (text "new") old_files g) ⊎ ((done ≡ false) × Untouched old_files g)
hosted_write_atomic_example = hosted_write_atomic none (text "new") old_files old_files-IsDurable

abbrev picked_file : Text
picked_file = text "url,username,password\nhttps://a.io,alice,secret\n"

pick_and_parse-Offered_example :
    Offered toy_platform fresh (pick_and_parse toy_platform (picked picked_file) fresh)
pick_and_parse-Offered_example = pick_and_parse-Offered toy_platform (picked picked_file) fresh

abbrev with_alice : App toy_platform
with_alice = record fresh { keystore = record { records = alice ∷ []; key = master } }

-- An edit without a password keeps the old one.
forms-Capped_example :
    All IsCapped
      (on_save_new toy_platform
        (text "b.io")
        (text "bob")
        []
        (text "B")
        (pos 4)
        with_alice).keystore.records
    × All IsCapped
        (on_edit_save toy_platform
          (text "id")
          (text "B")
          (pos 4)
          (text "bob")
          []
          with_alice).keystore.records
forms-Capped_example =
    forms-Capped toy_platform (text "b.io") (text "bob") [] (text "B") (text "id") (pos 4)
      with_alice (ground arith)
