-- ===== src/Lib.antt =====
-- A model of the logic of the password vault: the device that holds credentials, and answers a
-- browser over a line protocol on USB.
--
-- The parts, and the files that model them:
--   * logic/vaults-bridge-protocol: message.rs is Protocol/Message.antt (a type for each request and
--     response), and frame.rs is Protocol/Frame.antt (`frame`, `LineSplitter`, `push`).
--   * logic/vaults-bridge-core/src/session.rs is Session.antt: a method takes the session and gives
--     its result with the session afterwards.
--   * logic/vaults-bridge-core/src/origin.rs is Origin.antt (`Origin::parse`, over a parameter for
--     `url::Url::parse`) and Origin/Domain.antt (`registrable_domain`, `origin_match_key`, over a
--     parameter for the test that a host is an IP address). Origin/Domain/Suffixes.antt names the
--     public suffixes by their registries, apart from the table of the source.
--   * logic/vaults-bridge-core/src/{record,approval,store}.rs are Record.antt, Approval.antt and
--     Store.antt. The trait `CredentialStore` is a record of operations with a record of laws.
--   * logic/vaults-bridge-core/src/engine.rs is Engine.antt (state, gates, `commit_store_mutation`),
--     Engine/Password.antt (`generate_password`), Engine/Handlers.antt (`handle_release`,
--     `handle_store`, `handle_generate`) and Engine/Dispatch.antt (`dispatch`, `handle`). A handler
--     is a function of the world, with its result and the world afterwards: what it has done stays
--     done when it fails.
--   * logic/vaults-bridge-keystore/src/lib.rs is Keystore.antt (the records and the operations of the
--     user interface), Keystore/Bulk.antt (`restore_many`, `import_many`), Keystore/Sealed.antt
--     (at rest, and backups) and Keystore/Trait.antt (the store that the engine uses).
--   * logic/vaults-bridge-import/src/lib.rs is Import.antt (`parse`), Import/Csv.antt (`RowIter`) and
--     Import/Header.antt (`detect_source`, `column_mapping`).
--   * src/main.rs is App/Approver.antt (`SlintApprover`, the taps and the timeout worker, whose
--     schedules are lists of events in App/Approver/Schedule.antt), App/Fields.antt (the tests of the
--     fields) and App/Vault.antt (the callbacks that work on the keystore).
--   * src/state.rs is App/Rows.antt, src/persist.rs is App/Disk.antt with App/Disk/Hosted.antt (files
--     whose content is kept over a loss of power once it is synced),
--     src/import_flow.rs is App/Vault/Importing.antt, and src/backup_flow.rs is
--     App/Vault/Backup.antt. A callback is a function of the application, which holds the keystore,
--     the disk, the window and what waits for a confirmation.
--   * src/transport/webusb.rs is Transport/Reader.antt (`reader_loop`), Transport/Writer.antt (the
--     loop over the packets) and Transport.antt (`dispatch`, and `serve_blocking` once the interface
--     is registered); src/transport/websocket.rs is Transport/Websocket.antt (one client).
--   * App/Server.antt is the engine that `app_main` of src/main.rs builds, with its write hook. The
--     record `Others` is what other threads do around it, the callbacks between the release of the
--     store lock in `commit_store_mutation` and the lock of the hook included.
--   * Crypto.antt is the interface of the crates of cryptography, with their documented laws.
--
-- The engine calls the session for its gates and its channel, the store through its interface, and
-- the approver and the write hook, which may change the whole world: the engine holds no lock while
-- it waits for the user. The callbacks change the keystore, write it to the disk and take the
-- change back where the disk refuses it.
--
-- The transport hands the lines of the host to the engine one after the other. Its reader runs in a
-- thread of its own but depends on nothing that the dispatcher does, so that what it sends is a
-- function of what the endpoint gives.
--
-- Numbers are natural numbers; a text is its list of bytes; random bytes, UUIDs and the clock are
-- tapes with a place on them. A colour is an `i32`, over the integers `ℤ` of Base/Ints.antt. The
-- loops of rejections in `pick_byte` and `random_index` have no bound in the source; here they run on
-- the fuel `patience` of the crypto interface, for which no law is assumed, and are `none` where they
-- outrun it, which `Unlucky` of Crypto.antt describes. The loop of `unique_record_id` runs on one
-- draw more than there are records, and is `none` where `Uuid::new_v4` has repeated itself so often.
--
-- The parser of CSV runs over the text by structural recursion; its rows run on one more than the
-- length of the text, and each row takes a character at least.
--
-- Not modelled: the JSON of serde (a parameter of the sealed forms), the wiping of memory, the
-- layout of the user interface, the file picker and the file system of the device (their answers
-- are arguments), the start of the application, the registration of the USB interface, the
-- handshake of the web socket, the text of the status, and the browser extension.
pub mod Base
pub mod Protocol
pub mod Crypto
pub mod Session
pub mod Record
pub mod Approval
pub mod Store
pub mod Keystore
pub mod Import
pub mod Origin
pub mod Engine
pub mod App
pub mod Transport
pub mod Tests
