-- ===== src/Approval.antt =====
-- logic/vaults-bridge-core/src/approval.rs: what the engine asks of the user.
use passport_passwords.Base.{ℕ, String, Text}

pub data ApprovalAction : Type 0 where
  release save update restore_and_update generate : ApprovalAction
  generate_and_update generate_and_restore bulk_import : ApprovalAction

-- `ApprovalAction::title`
unfoldable pub title : ApprovalAction → String
title release = "Release password?"
title save = "Save password?"
title update = "Update password?"
title restore_and_update = "Restore and update?"
title generate = "Generate password?"
title generate_and_update = "Generate new password?"
title generate_and_restore = "Restore and generate?"
title bulk_import = "Import passwords?"

pub record ApprovalRequest : Type 0 where
  pub action : ApprovalAction
  pub origin : Text
  pub username : Text
  pub request_nonce : ℕ

pub data ApprovalDecision : Type 0 where
  approve reject timeout : ApprovalDecision
