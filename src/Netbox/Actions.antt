-- ===== src/Netbox/Actions.antt =====
-- `resolveProtocolAction` (server/utils/netboxProtocol.js) and what a server of an item is to be.
use infram.Prelude.{
  ℕ, ◌&&◌, Option, none, some, List, [], ◌==◌, if◌then◌else◌, leb, find_one, is_some, Result, ok,
  or_err, guard, ◌>>=◌, ◌>>◌,
}
use infram.Texts.{Text, codes, text_eq}
use infram.Netbox.{
  Kind, device, vm, Item, Action, Rule, Config, is_rule_match, default_port, default_renderer,
  filled,
}

-- The settings that a server gets; `port` and `protocol` are those of the action.
pub record ServerConfig : Type 0 where
  pub ip : Text
  pub port : ℕ
  pub protocol : Text
  pub object_type : Kind
  pub object_id : ℕ
  pub role : Text
  pub platform : Text
  pub tags : List Text
  pub matched_rule_id : Option ℕ

pub record Payload : Type 0 where
  pub name : Text
  pub renderer : Text
  pub icon : Text
  pub account_id : Option ℕ
  pub organization_id : Option ℕ
  pub folder_id : Option ℕ
  pub config : ServerConfig

pub record Integration : Type 0 where
  pub id : ℕ
  pub organization_id : Option ℕ
  pub config : Config

-- A port of 0 and an empty renderer are falsy; what has no key is `none`.
abbrev or_this {ℓ} : {A : Type ℓ} → Option A → Option A → Option A
or_this none b = b
or_this (some a) b = some a

abbrev positive_or : (default : ℕ) → Option ℕ → ℕ
positive_or n none = n
positive_or n (some m) = if m == 0 then n else m

abbrev text_or : (default : Text) → Option Text → Text
text_or s none = s
text_or s (some t) = t

-- The protocol, the port and the renderer; 400 stands for the error that is thrown.
unfoldable pub resolve_action : (defaults override : Action) → Result (Text × ℕ × Text)
resolve_action defaults override =
    let protocol =
      text_or (text_or (codes "ssh") (filled defaults.protocol)) (filled override.protocol) in
    let inherits = text_eq protocol (text_or (codes "ssh") (filled defaults.protocol)) in
    or_err (default_port protocol) 400 >>= λ standard.
    let port =
      positive_or standard (or_this override.port (if inherits then defaults.port else none)) in
    let renderer =
      text_or (default_renderer protocol)
        (filled (or_this override.renderer (if inherits then defaults.renderer else none))) in
    guard (leb 1 port && leb port 65535) 400 >> ok (protocol, port, renderer)

abbrev pub no_action : Action
no_action = record { protocol = none; port = none; renderer = none }

unfoldable pub rule_for : Item → Config → Option Rule
rule_for item c = find_one (λ r. is_rule_match r item) c.protocol_rules

abbrev action_of : Option Rule → Action
action_of none = no_action
action_of (some r) = r.action

abbrev rule_id : Option Rule → Option ℕ
rule_id none = none
rule_id (some r) = r.id

abbrev get_icon : Kind → (protocol : Text) → Text
get_icon kind protocol =
    if text_eq protocol (codes "rdp")
    then codes "windows"
    else elim kind [ vm ↦ codes "server" | device ↦ codes "linux" ]

unfoldable pub payload_for : Item → (account : ℕ) → Integration → Result Payload
payload_for item account i =
    let rule = rule_for item i.config in
    resolve_action i.config.default_action (action_of rule) >>= λ a. ok (record {
      name = item.name;
      renderer = a.2;
      icon = get_icon item.kind a.0;
      account_id = if is_some i.organization_id then none else some account;
      organization_id = i.organization_id;
      folder_id = i.config.folder_id;
      config = record {
        ip = text_or [] item.primary_address;
        port = a.1;
        protocol = a.0;
        object_type = item.kind;
        object_id = item.netbox_id;
        role = item.role;
        platform = item.platform;
        tags = item.tags;
        matched_rule_id = rule_id rule;
      };
    })
