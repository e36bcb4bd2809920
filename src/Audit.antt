-- ===== src/Audit.antt =====
-- server/utils/orgAuditSettings.js, server/models/AuditLog.js and `createAuditLog` of
-- server/controllers/audit.js: what is written to the audit log.
pub mod Actions
use infram.Prelude.{
  ℕ, suc, Bool, true, false, not, ◌||◌, Option, none, some, List, [], ◌∷◌, ◌++◌, ◌==◌,
  if◌then◌else◌, given, get,
}
use infram.Audit.Actions.{
  Action, Group, connections, files, servers, identities, passwords, folders, scripts, sign_in,
  administration, audit_group_of, Resource,
}

pub record Settings : Type 0 where
  pub require_connection_reason : Bool
  pub enable_file_operation_audit : Bool
  pub enable_server_connection_audit : Bool
  pub enable_identity_management_audit : Bool
  pub enable_identity_credentials_access_audit : Bool
  pub enable_server_management_audit : Bool
  pub enable_folder_management_audit : Bool
  pub enable_script_execution_audit : Bool
  pub enable_session_recording : Bool
  pub recording_retention_days : ℕ
  pub allow_session_sharing : Bool
  pub allow_writable_sharing : Bool
  pub share_max_hours : ℕ

abbrev pub default_audit_settings : Settings
default_audit_settings = record {
  require_connection_reason = false;
  enable_file_operation_audit = true;
  enable_server_connection_audit = true;
  enable_identity_management_audit = true;
  enable_identity_credentials_access_audit = true;
  enable_server_management_audit = true;
  enable_folder_management_audit = true;
  enable_script_execution_audit = true;
  enable_session_recording = false;
  recording_retention_days = 90;
  allow_session_sharing = true;
  allow_writable_sharing = true;
  share_max_hours = 24;
}

-- The settings that an organization has stored; one that is missing is `none`.
pub record StoredSettings : Type 0 where
  pub require_connection_reason : Option Bool
  pub enable_file_operation_audit : Option Bool
  pub enable_server_connection_audit : Option Bool
  pub enable_identity_management_audit : Option Bool
  pub enable_identity_credentials_access_audit : Option Bool
  pub enable_server_management_audit : Option Bool
  pub enable_folder_management_audit : Option Bool
  pub enable_script_execution_audit : Option Bool
  pub enable_session_recording : Option Bool
  pub recording_retention_days : Option ℕ
  pub allow_session_sharing : Option Bool
  pub allow_writable_sharing : Option Bool
  pub share_max_hours : Option ℕ

abbrev stored_or {ℓ} : {A : Type ℓ} → A → Option A → A
stored_or a none = a
stored_or a (some b) = b

-- `{ ...DEFAULT_AUDIT_SETTINGS, ...stored }`
abbrev pub merged : StoredSettings → Settings
merged s = record {
  require_connection_reason =
      stored_or default_audit_settings.require_connection_reason s.require_connection_reason;
  enable_file_operation_audit =
      stored_or default_audit_settings.enable_file_operation_audit s.enable_file_operation_audit;
  enable_server_connection_audit =
      stored_or default_audit_settings.enable_server_connection_audit
        s.enable_server_connection_audit;
  enable_identity_management_audit =
      stored_or default_audit_settings.enable_identity_management_audit
        s.enable_identity_management_audit;
  enable_identity_credentials_access_audit =
      stored_or default_audit_settings.enable_identity_credentials_access_audit
        s.enable_identity_credentials_access_audit;
  enable_server_management_audit =
      stored_or default_audit_settings.enable_server_management_audit
        s.enable_server_management_audit;
  enable_folder_management_audit =
      stored_or default_audit_settings.enable_folder_management_audit
        s.enable_folder_management_audit;
  enable_script_execution_audit =
      stored_or default_audit_settings.enable_script_execution_audit
        s.enable_script_execution_audit;
  enable_session_recording =
      stored_or default_audit_settings.enable_session_recording s.enable_session_recording;
  recording_retention_days =
      stored_or default_audit_settings.recording_retention_days s.recording_retention_days;
  allow_session_sharing =
      stored_or default_audit_settings.allow_session_sharing s.allow_session_sharing;
  allow_writable_sharing =
      stored_or default_audit_settings.allow_writable_sharing s.allow_writable_sharing;
  share_max_hours = stored_or default_audit_settings.share_max_hours s.share_max_hours;
}

abbrev settings_of : Option StoredSettings → Settings
settings_of none = default_audit_settings
settings_of (some s) = merged s

-- The settings are kept by the organization.
unfoldable pub get_org_audit_settings :
    (org : Option ℕ) → List (ℕ × StoredSettings) → Option Settings
get_org_audit_settings org stored = elim (given org) [
  | none ↦ none
  | some o ↦ some (settings_of (get o stored))
]

-- The setting of a group; the last two groups have none, and are always audited.
abbrev setting_of : Group → Settings → Bool
setting_of connections s = s.enable_server_connection_audit
setting_of files s = s.enable_file_operation_audit
setting_of servers s = s.enable_server_management_audit
setting_of identities s = s.enable_identity_management_audit
setting_of passwords s = s.enable_identity_credentials_access_audit
setting_of folders s = s.enable_folder_management_audit
setting_of scripts s = s.enable_script_execution_audit
setting_of sign_in s = true
setting_of administration s = true

unfoldable pub should_audit : Action → Option Settings → Bool
should_audit a none = true
should_audit a (some s) = setting_of (audit_group_of a) s

pub record AuditLog : Type 0 where
  pub id : ℕ
  pub account_id : ℕ
  pub organization_id : Option ℕ
  pub action : Action
  pub resource : Resource
  pub resource_id : Option ℕ
  pub timestamp : ℕ

-- The audit log, the identifier of its next row, and the stored settings.
pub record Journal : Type 0 where
  pub logs : List AuditLog
  pub next : ℕ
  pub stored : List (ℕ × StoredSettings)

-- What is handed over; the details, the address and the user agent are left out.
pub record Event : Type 0 where
  pub account_id : ℕ
  pub organization_id : Option ℕ
  pub action : Action
  pub resource : Resource
  pub resource_id : Option ℕ

abbrev row_of : (id now : ℕ) → Event → AuditLog
row_of id now e = record {
  id = id;
  account_id = e.account_id;
  organization_id = e.organization_id;
  action = e.action;
  resource = e.resource;
  resource_id = e.resource_id;
  timestamp = now;
}

unfoldable pub create_audit_log : (now : ℕ) → Event → Journal → Journal × Option ℕ
create_audit_log now e j =
    if e.account_id == 0
      || not (should_audit e.action (get_org_audit_settings e.organization_id j.stored))
    then (j, none)
    else (record j { logs = j.logs ++ row_of j.next now e ∷ []; next = suc j.next }, some j.next)
