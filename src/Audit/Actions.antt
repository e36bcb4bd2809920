-- ===== src/Audit/Actions.antt =====
-- server/utils/auditActions.js: the actions that are audited, and their groups.

pub data Action : Type 0 where
  ssh_connect sftp_connect pve_connect rdp_connect vnc_connect telnet_connect share_start : Action
  share_stop share_update file_upload file_download file_create file_delete file_rename : Action
  file_chmod folder_create folder_delete folder_download entry_create entry_update : Action
  entry_delete entry_power entry_wake identity_create identity_update identity_delete : Action
  identity_credentials_access folder_create_mgmt folder_update_mgmt folder_delete_mgmt : Action
  script_execute sign_in sign_in_failed sign_out impersonate api_token_create api_token_revoke :
      Action
  account_create account_delete account_role_change account_password_change : Action
  account_password_reset account_lock account_unlock account_mfa_reset session_revoke : Action
  audit_export organization_update organization_transfer organization_delete : Action
  member_role_change member_invite member_join member_remove auth_provider_create : Action
  auth_provider_update auth_provider_delete settings_update host_key_trust host_key_mismatch :
      Action
  host_key_accept host_key_forget integration_removals_apply backup_create backup_restore : Action
  database_download : Action

pub data Group : Type 0 where
  connections files servers identities passwords folders scripts sign_in administration : Group

-- `auditGroupOf`
unfoldable pub audit_group_of : Action → Group
audit_group_of ssh_connect = connections
audit_group_of sftp_connect = connections
audit_group_of pve_connect = connections
audit_group_of rdp_connect = connections
audit_group_of vnc_connect = connections
audit_group_of telnet_connect = connections
audit_group_of share_start = connections
audit_group_of share_stop = connections
audit_group_of share_update = connections
audit_group_of file_upload = files
audit_group_of file_download = files
audit_group_of file_create = files
audit_group_of file_delete = files
audit_group_of file_rename = files
audit_group_of file_chmod = files
audit_group_of folder_create = files
audit_group_of folder_delete = files
audit_group_of folder_download = files
audit_group_of entry_create = servers
audit_group_of entry_update = servers
audit_group_of entry_delete = servers
audit_group_of entry_power = servers
audit_group_of entry_wake = servers
audit_group_of identity_create = identities
audit_group_of identity_update = identities
audit_group_of identity_delete = identities
audit_group_of identity_credentials_access = passwords
audit_group_of folder_create_mgmt = folders
audit_group_of folder_update_mgmt = folders
audit_group_of folder_delete_mgmt = folders
audit_group_of script_execute = scripts
audit_group_of Action.sign_in = Group.sign_in
audit_group_of sign_in_failed = Group.sign_in
audit_group_of sign_out = Group.sign_in
audit_group_of impersonate = Group.sign_in
audit_group_of api_token_create = Group.sign_in
audit_group_of api_token_revoke = Group.sign_in
audit_group_of account_create = administration
audit_group_of account_delete = administration
audit_group_of account_role_change = administration
audit_group_of account_password_change = administration
audit_group_of account_password_reset = administration
audit_group_of account_lock = administration
audit_group_of account_unlock = administration
audit_group_of account_mfa_reset = administration
audit_group_of session_revoke = administration
audit_group_of audit_export = administration
audit_group_of organization_update = administration
audit_group_of organization_transfer = administration
audit_group_of organization_delete = administration
audit_group_of member_role_change = administration
audit_group_of member_invite = administration
audit_group_of member_join = administration
audit_group_of member_remove = administration
audit_group_of auth_provider_create = administration
audit_group_of auth_provider_update = administration
audit_group_of auth_provider_delete = administration
audit_group_of settings_update = administration
audit_group_of host_key_trust = administration
audit_group_of host_key_mismatch = administration
audit_group_of host_key_accept = administration
audit_group_of host_key_forget = administration
audit_group_of integration_removals_apply = administration
audit_group_of backup_create = administration
audit_group_of backup_restore = administration
audit_group_of database_download = administration

-- `RESOURCE_TYPES`
pub data Resource : Type 0 where
  entry identity folder file script account organization auth_provider settings : Resource
  backup audit host_key integration : Resource
