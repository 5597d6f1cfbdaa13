-- ===== src/Access/Session.antt =====
-- store/auth.ts, hooks/useAuth.ts and the links of pages/AppLayout.tsx, without their labels, icons
-- and children, which have no permission of their own.
pub mod Laws
use vps_pilot.Base.{
  String, Bool, true, false, ◌||◌, Option, none, some, List, [], ◌∷◌, if◌then◌else◌, or_else,
}
use vps_pilot.Access.Drafts.{includes, text_eq}

record UpdateCheckResult : Type 0 where
  pub result_has_update : Option Bool
  pub result_version : Option String
  pub result_url : Option String

pub record AuthStore : Type 0 where
  pub username : Option String
  pub is_admin : Bool
  pub permissions : List String
  pub has_update : Bool
  pub latest_version : String
  pub release_url : String

abbrev pub initial : AuthStore
initial = record {
  username = none;
  is_admin = false;
  permissions = [];
  has_update = false;
  latest_version = "";
  release_url = "";
}

-- `setUser`
unfoldable pub set_user : Option String → Bool → Option (List String) → AuthStore → AuthStore
set_user username is_admin permissions s = record s {
  username = username;
  is_admin = is_admin;
  permissions = or_else permissions [];
}

-- `hasPermission`
unfoldable has_permission : String → AuthStore → Bool
has_permission action s = s.is_admin || includes text_eq action s.permissions

abbrev field_of {ℓ κ} : {A : Type ℓ} {B : Type κ} → (A → Option B) → Option A → B → B
field_of f none d = d
field_of f (some a) d = or_else (f a) d

-- `setUpdateInfo`
unfoldable set_update_info : Option UpdateCheckResult → AuthStore → AuthStore
set_update_info info s = record s {
  has_update = field_of (λ i. i.result_has_update) info false;
  latest_version = field_of (λ i. i.result_version) info "";
  release_url = field_of (λ i. i.result_url) info "";
}

-- The answer to `/api/me`.
pub record Me : Type 0 where
  pub me_username : String
  pub me_is_admin : Option Bool
  pub me_permissions : Option (List String)

-- What the query has: its last data, and whether its last request failed.
pub record Query : Type 0 where
  pub query_data : Option Me
  pub is_error : Bool

abbrev signed_out : Bool → AuthStore → AuthStore
signed_out true s = set_user none false (some []) s
signed_out false s = s

abbrev from_data : Option Me → Bool → AuthStore → AuthStore
from_data none is_error s = signed_out is_error s
from_data (some me) is_error s =
    set_user (some me.me_username) (or_else me.me_is_admin false)
      (some (or_else me.me_permissions [])) s

-- The effect of `useAuth`.
unfoldable pub sync_user : Query → AuthStore → AuthStore
unfolding set_user
sync_user q s = from_data q.query_data q.is_error s

pub record NavItem : Type 0 where
  pub to : String
  pub permission : Option String
  pub admin_only : Bool

abbrev if_permitted : Option String → AuthStore → Bool
if_permitted none s = true
if_permitted (some action) s = has_permission action s

-- The test of `visibleItems`.
unfoldable is_visible : AuthStore → NavItem → Bool
unfolding has_permission
is_visible s item = if item.admin_only then s.is_admin else if_permitted item.permission s

unfoldable pub visible_items : AuthStore → List NavItem → List NavItem
unfolding is_visible
visible_items s [] = []
visible_items s (item ∷ items) =
    let rest = visible_items s items in if is_visible s item then item ∷ rest else rest

abbrev pub open_link : String → String → NavItem
open_link to action = record { to = to; permission = some action; admin_only = false }

abbrev admin_link : String → NavItem
admin_link to = record { to = to; permission = none; admin_only = true }

abbrev pub projects_link : NavItem
projects_link = record { to = "/projects"; permission = none; admin_only = false }

abbrev pub nav_items : List NavItem
nav_items =
    open_link "/dashboard" "view_dashboard"
    ∷ projects_link
    ∷ open_link "/system" "view_system"
    ∷ open_link "/logs" "view_logs"
    ∷ open_link "/files" "view_files"
    ∷ open_link "/audit" "view_audit"
    ∷ admin_link "/containers"
    ∷ open_link "/events" "view_events"
    ∷ open_link "/cron" "view_cron"
    ∷ open_link "/notifications" "view_notifications"
    ∷ open_link "/secrets" "view_secrets"
    ∷ open_link "/registries" "view_registries"
    ∷ open_link "/backup" "manage_backups"
    ∷ admin_link "/users"
    ∷ admin_link "/roles"
    ∷ admin_link "/settings"
    ∷ []
