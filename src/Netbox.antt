-- ===== src/Netbox.antt =====
-- server/utils/netboxSyncService.js and netboxProtocol.js: the servers that an integration takes over
-- from a NetBox inventory. `toLowerCase` is that of the letters A to Z. The time of a sync and the
-- messages are left out; `fetchInventory` gives the items, which are an argument.
pub mod Actions
pub mod Sync
pub mod Rows
pub mod Review
pub mod Keys
pub mod Serving
pub mod Exact
mod Tests
use infram.Prelude.{
  ℕ, ◌+◌, ◌*◌, Bool, true, false, not, ◌&&◌, ◌||◌, Option, none, some, List, [], ◌∷◌, ◌++◌, ◌==◌,
  if◌then◌else◌, ltb, leb, any, find_one, find_all, length, map, is_some,
}
use infram.Texts.{Text, codes, text_eq, includes}

pub data Kind : Type 0 where
  device vm : Kind

pub record Item : Type 0 where
  pub kind : Kind
  pub external_id : Text
  pub netbox_id : ℕ
  pub name : Text
  pub role : Text
  pub platform : Text
  pub tags : List Text
  pub custom_fields : List (Text × Text)
  pub primary_address : Option Text

-- What a rule or the default asks for; what is missing is `none`.
pub record Action : Type 0 where
  pub protocol : Option Text
  pub port : Option ℕ
  pub renderer : Option Text

pub record Rule : Type 0 where
  pub id : Option ℕ
  pub enabled : Bool
  pub target_type : Option Text
  pub tags_any : List Text
  pub device_roles_any : List Text
  pub vm_roles_any : List Text
  pub platforms_any : List Text
  pub name_includes : Option Text
  pub custom_field_key : Option Text
  pub custom_field_value : Option Text
  pub action : Action

pub record Config : Type 0 where
  pub include_device_roles : List Text
  pub exclude_device_roles : List Text
  pub include_vm_roles : List Text
  pub exclude_vm_roles : List Text
  pub include_tags : List Text
  pub exclude_tags : List Text
  pub protocol_rules : List Rule
  pub default_action : Action
  pub folder_id : Option ℕ

-- What JavaScript's `trim` removes.
abbrev is_space : ℕ → Bool
is_space c =
    (leb 9 c && leb c 13)
    || any (λ k. k == c) (32 ∷ 160 ∷ 5760 ∷ 8232 ∷ 8233 ∷ 8239 ∷ 8287 ∷ 12288 ∷ 65279 ∷ [])
    || leb 8192 c && leb c 8202

unfoldable pub trim_start : Text → Text
trim_start [] = []
trim_start (c ∷ s) = if is_space c then trim_start s else c ∷ s

unfoldable pub trim_end : Text → Text
trim_end [] = []
trim_end (c ∷ s) = elim (trim_end s) [ [] ↦ if is_space c then [] else c ∷ [] | d ∷ t ↦ c ∷ d ∷ t ]

abbrev pub lower : ℕ → ℕ
lower c = if leb b'A' c && leb c b'Z' then c + 32 else c

unfoldable pub normalize : Text → Text
normalize s = map lower (trim_end (trim_start s))

abbrev is_empty : Text → Bool
is_empty [] = true
is_empty (c ∷ s) = false

unfoldable pub normalize_list : List Text → List Text
normalize_list values = find_all (λ s. not (is_empty s)) (map normalize values)

abbrev pub is_in : List Text → Text → Bool
is_in texts s = any (λ t. text_eq t s) texts

abbrev has_some : List Text → Bool
has_some [] = false
has_some (s ∷ ss) = true

unfoldable pub contains_any : (haystack needles : List Text) → Bool
contains_any haystack needles =
    not (has_some needles) || any (λ n. is_in (normalize_list haystack) n) needles

abbrev pub passes : (included excluded : List Text) → Text → Bool
passes included excluded role =
    not (has_some (normalize_list included) && not (is_in (normalize_list included) role))
    && not (has_some (normalize_list excluded) && is_in (normalize_list excluded) role)

abbrev passes_role : Kind → Config → Text → Bool
passes_role device c role = passes c.include_device_roles c.exclude_device_roles role
passes_role vm c role = passes c.include_vm_roles c.exclude_vm_roles role

unfoldable pub matches_filters : Item → Config → Bool
matches_filters item c =
    let tags = normalize_list item.tags in
    let included = normalize_list c.include_tags in
    let excluded = normalize_list c.exclude_tags in
    passes_role item.kind c (normalize item.role)
    && not (has_some included && not (contains_any tags included))
    && not (has_some excluded && contains_any tags excluded)

abbrev kind_text : Kind → Text
kind_text device = codes "device"
kind_text vm = codes "vm"

-- A text that is there and not empty.
abbrev pub filled : Option Text → Option Text
filled none = none
filled (some []) = none
filled (some (c ∷ s)) = some (c ∷ s)

abbrev pub is_target : Option Text → Kind → Bool
is_target none kind = true
is_target (some t) kind = text_eq t (codes "any") || text_eq t (kind_text kind)

abbrev roles_any : Kind → Rule → List Text
roles_any device r = r.device_roles_any
roles_any vm r = r.vm_roles_any

abbrev field_of : Text → List (Text × Text) → Text
field_of key fields = elim (find_one (λ f. text_eq f.0 key) fields) [ none ↦ [] | some f ↦ f.1 ]

abbrev pub is_named : Option Text → Text → Bool
is_named none name = true
is_named (some part) name = includes (normalize part) (normalize name)

abbrev has_field : Option Text → Option Text → List (Text × Text) → Bool
has_field none value fields = true
has_field (some key) none fields = true
has_field (some key) (some value) fields =
    text_eq (normalize (field_of key fields)) (normalize value)

unfoldable pub is_rule_match : Rule → Item → Bool
is_rule_match r item =
    r.enabled
    && is_target (filled r.target_type) item.kind
    && contains_any item.tags (normalize_list r.tags_any)
    && contains_any (item.role ∷ []) (normalize_list (roles_any item.kind r))
    && contains_any (item.platform ∷ []) (normalize_list r.platforms_any)
    && is_named (filled r.name_includes) item.name
    && has_field (filled r.custom_field_key) (filled r.custom_field_value) item.custom_fields

-- DEFAULTS
unfoldable pub default_port : Text → Option ℕ
default_port protocol =
    if text_eq protocol (codes "ssh")
    then some 22
    else if text_eq protocol (codes "rdp")
    then some 3389
    else if text_eq protocol (codes "vnc")
    then some 5900
    else none

abbrev pub default_renderer : Text → Text
default_renderer protocol =
    if text_eq protocol (codes "ssh") then codes "terminal" else codes "guac"
