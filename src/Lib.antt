-- ===== src/Lib.antt =====
-- INFRA-W: a web application that keeps servers, identities and organizations, and opens terminal,
-- desktop and file sessions on the servers. This library models core parts of its Node.js server
-- (paths below are from the repository's root) and proves what they promise.
--
-- Parts and how they interact
--   * SessionManager (server/lib/SessionManager.js) is the registry of the connections that are open:
--     `Manager` is `this.sessions` and `this.shareIndex`, and each method is a function of the same
--     name on it. SessionManager/Sharing has web sockets and share links, /Release the removal of
--     sessions with the effects on their resources, /Log the log buffer and the recording. /Steps
--     makes a step relation of the calls, so that a sequence of steps is any interleaving of requests
--     and timers. `remove` is asynchronous: `remove_start` is what runs before its first pause and
--     `remove_finish` what runs after it, and they are separate steps. The other children are proofs.
--   * Organization (server/controllers/organization.js, server/utils/permission.js and the models
--     OrganizationMember and Organization) has the tables as lists of rows in a `Directory`; each
--     handler of the controller is a function in Organization/Calls that returns the new directory or
--     the code of the error, with its guards in the order of the source. Organization/HandOver hands
--     the organizations of an account over, and adds accounts to organizations.
--   * SignIn (server/utils/sessionAuth.js, server/models/Session.js) has the browser's sign-in
--     sessions. Revoking the last one of an account ends the account's connections, so that its
--     `Server` contains the registry. SignIn/Login is the sign-in with a password
--     (server/controllers/auth.js, server/utils/totp.js) and the requests that end sessions
--     (server/controllers/session.js); bcrypt and speakeasy are parameters.
--   * Accounts (server/controllers/account.js) creates, locks and changes accounts in `People`, which
--     contains the sign-in sessions; Accounts/Requests has the requests of server/routes/users.js with
--     the guards before them, except for the refusal of API tokens. bcrypt is a parameter.
--   * Folders (server/controllers/folder.js) has the tree of folders. Folders/Edit is `editFolder`; a
--     change of owner goes down the tree by `update_folder_context`, ends the connections of the
--     entries (a call of the registry) and takes the old organization's identities off them.
--   * Identities (server/controllers/identity.js) has the identities with which accounts sign in to
--     servers, in a `Vault` with their secrets; Identities/Credentials stores and reads the secrets.
--   * Entries (server/controllers/entry.js, server/models/Entry.js in Models) has the servers. It works
--     on the tables of Folders, which contain the registry. Entries/Editing is `editEntry`, /Moving is
--     `repositionEntry`, /Importing the import of an SSH configuration, /Recent the recent connections
--     and Wake-On-LAN, and /Resolving the choice of an identity (server/utils/identityResolver.js).
--   * Tags (server/controllers/tag.js) has the tags of accounts and the entries that have them.
--   * Audit (server/utils/auditActions.js, server/utils/orgAuditSettings.js, `createAuditLog` of
--     server/controllers/audit.js) has the settings of an organization and the audit log.
--   * ServerSessions (server/controllers/serverSession.js) has the requests on connection sessions. Its
--     `World` puts the tables, the registry and the audit log together, and its handlers call the
--     operations of Entries, Identities, Audit and SessionManager.
--   * Sockets (server/middlewares/wsAuth.js) lets web sockets in. Its `Hub` is a `World` with the
--     sign-in sessions, and it calls `resolve_session`, the registry, `validate_entry_access` and
--     `resolve_identity`.
--   * HostKeys (server/utils/hostKeys.js, server/controllers/hostKey.js) decides whether the key that
--     an SSH host presents is trusted.
--   * ApiTokens (server/utils/apiTokens.js) has the tokens of the programming interface; the hash
--     function, which comes from the runtime's crypto module, is a parameter.
--   * Prompts (server/utils/connectionPrompts.js) has the questions that are put to an account while a
--     connection is opened.
--   * Guacd (server/lib/GuacdClient.js) is the client of guacd, the daemon that speaks the protocols of
--     remote desktops: what it writes, and in Guacd/Data what it does with each piece of data that
--     arrives; the runtime's decoding of the bytes of an event is a parameter. Calls of the socket, the
--     registry and the callbacks are a list of effects. Texts has
--     the operations of JavaScript's strings that it uses, on lists of characters.
--   * Netbox (server/utils/netboxSyncService.js, server/utils/netboxProtocol.js) has the filters and
--     the rules for the items of a NetBox; Netbox/Actions says what the server of an item is to be, and
--     Netbox/Sync makes the servers of an integration agree with the items that it fetched.
--
-- Conventions
--   * Identifiers, tokens of sockets and the like are natural numbers, since they are only compared;
--     names and tokens that are tested are strings. Times are milliseconds since the epoch and are
--     passed to the operations, as are the identifiers that the source draws at random; a hypothesis
--     says that a drawn one is not in use where this matters.
--   * A Map is an association list in the order of insertion. A table is a list of rows with the
--     queries `find_one`, `find_all`, `update`, `destroy` and `count` of Prelude. A `where` clause is
--     a test on rows. The order in which the database gives rows is a parameter of the operations that
--     sort, and hypotheses say that sorting adds no rows. A statement runs as one step; a handler of a
--     controller is one step as well.
--   * Loops are over lists, except for the two of Folders that follow `parentId` up and down. These
--     run on fuel and return `none` without it; Folders/Enough proves that the sum of the depths of
--     the folders and one more are enough.
--
-- Not modelled: the connections to targets other than guacd (SSH, Proxmox), files of recordings,
-- audit records outside of ServerSessions, logging, messages to the browser, routes and validation,
-- and the user interface, which are input and output or calls of libraries; the sign-in by a
-- directory (LDAP, OIDC), which calls its libraries at every step; the rows that the database deletes
-- by itself; the deletion of accounts; the controller of integrations; the scripts; the reading of
-- the headers of HTTP requests (server/middlewares/auth.js); the migrations; and the delivery of state
-- to browsers (server/lib/StateBroadcaster.js).
mod Prelude
pub mod SessionManager
pub mod Organization
pub mod SignIn
pub mod Tags
pub mod Folders
pub mod HostKeys
pub mod Guacd
pub mod Netbox
pub mod Accounts
pub mod ApiTokens
pub mod Prompts
pub mod Identities
pub mod Models
pub mod Texts
pub mod Entries
pub mod Audit
pub mod ServerSessions
pub mod Sockets
