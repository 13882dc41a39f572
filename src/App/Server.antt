-- ===== src/App/Server.antt =====
-- `app_main` of src/main.rs, where it sets the engine up: the hook that persists what the engine
-- writes, and the generator of the forms.
pub mod Synced
use passport_passwords.Base.{ℕ, ◌+◌, Text, Bool, Option, if◌then◌else◌}
use passport_passwords.Protocol.Message.{default_charset}
use passport_passwords.Approval.{ApprovalRequest, ApprovalDecision}
use passport_passwords.Keystore.Trait.{KeystoreState, keystore_store}
use passport_passwords.Engine.{World, Engine, default_idle_ms}
use passport_passwords.Engine.Password.{generate_password}
use passport_passwords.App.Disk.{persist_keystore}
use passport_passwords.App.Vault.{Platform}

-- What the engine does not hold itself: the disk, the number of refreshes of the list that are
-- queued on the event loop, and the rest, which is the user's side.
pub record Outside (p : Platform) (Rest : Type 0) : Type 0 where
  pub disk : p.store.Disk
  pub refreshes : ℕ
  pub rest : Rest

module _ (p : Platform) (Rest : Type 0) where
  abbrev pub ShellWorld : Type 0
  ShellWorld = World KeystoreState (Outside p Rest)

  -- What the hook does under its lock: a refresh is queued only where the keystore was persisted.
  unfoldable pub persist_and_refresh : ShellWorld → Bool × ShellWorld
  persist_and_refresh w =
      let (done, disk, rng) =
        persist_keystore p.crypto p.json p.store w.store.keystore w.outer.disk w.rng in
      let refreshes = if done then w.outer.refreshes + 1 else w.outer.refreshes in
      (done, record w { rng = rng; outer = record w.outer { disk = disk; refreshes = refreshes } })

  -- The user and the other threads, wherever the engine holds no lock: while it waits for the
  -- user, when it cancels a question, from the release of the store by `commit_store_mutation` to
  -- the lock that the hook takes, and from there to the next lock or the return.
  pub record Others : Type 0 where
    pub request : ApprovalRequest → ShellWorld → ApprovalDecision × ShellWorld
    pub cancel_pending : ShellWorld → ShellWorld
    pub before_hook : ShellWorld → ShellWorld
    pub after_hook : ShellWorld → ShellWorld

  -- The hook `on_write`, with what the other threads do around its lock
  unfoldable pub on_write : Others → ShellWorld → Bool × ShellWorld
  on_write others w =
      let (done, w') = persist_and_refresh (others.before_hook w) in (done, others.after_hook w')

  -- `Engine::new(keystore, approver, EngineConfig::default(), on_write)`
  abbrev pub shell_engine : Others → Engine (keystore_store p.env)
  shell_engine others = record {
    crypto = p.crypto;
    url_parse = p.url_parse;
    idle_ms = default_idle_ms;
    Outer = Outside p Rest;
    request = others.request;
    cancel_pending = others.cancel_pending;
    on_write = on_write others;
  }

-- The callback `on_generate_strong`: a password, and the place on the tape behind it.
abbrev pub on_generate_strong : Platform → ℕ → Option (Text × ℕ)
on_generate_strong p rng = generate_password p.crypto 24 default_charset rng
