-- ===== src/Models.antt =====
-- server/models/Entry.js: the columns of an entry that the controllers read or write. An icon, an
-- address, a port and a MAC address are kept as the numbers that stand for them; one that is empty
-- or missing is `none`.
use Prim.Native.String.{String}
use infram.Prelude.{ℕ, Bool, Option, List}

pub data Protocol : Type 0 where
  ssh telnet rdp vnc : Protocol

pub data Proxmox : Type 0 where
  shell lxc qemu : Proxmox

-- `plain` is an entry whose type is a protocol, and not `server`.
pub data EntryType : Type 0 where
  server : EntryType
  pve : Proxmox → EntryType
  plain : Protocol → EntryType
  other : EntryType

pub data Renderer : Type 0 where
  terminal guac sftp : Renderer
  custom : ℕ → Renderer

-- The type of a session: of files, or another one.
pub data SessionType : Type 0 where
  sftp : SessionType
  named : ℕ → SessionType

pub record Config : Type 0 where
  pub protocol : Option Protocol
  pub ip : Option ℕ
  pub port : Option ℕ
  pub jump_hosts : Option (List ℕ)
  pub mac_address : Option ℕ
  pub wake_on_lan_enabled : Bool
  pub wake_on_lan_broadcast : Option ℕ

pub record Entry : Type 0 where
  pub id : ℕ
  pub name : String
  pub account_id : Option ℕ
  pub organization_id : Option ℕ
  pub folder_id : Option ℕ
  pub kind : EntryType
  pub renderer : Option Renderer
  pub icon : Option ℕ
  pub position : ℕ
  pub config : Option Config
