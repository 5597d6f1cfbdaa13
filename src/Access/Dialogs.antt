-- ===== src/Access/Dialogs.antt =====
-- pages/Users.tsx (`CreateUserDialog`, `EditAccessDialog`) and pages/Roles.tsx (`RoleEditor`): what
-- the dialogs show when they are opened and what they send.
pub mod Laws
use vps_pilot.Base.{
  ℕ, String, Bool, true, false, not, ◌&&◌, ◌||◌, Option, none, some, List, [], ◌∷◌, is_nil, or_else,
  if◌then◌else◌,
}
use vps_pilot.Base.Text.{nonempty}
use vps_pilot.Access.Drafts.{PermissionDraft}

pub data Mode : Type 0 where
  role custom : Mode

-- `mode === "role"`
abbrev is_role : Mode → Bool
is_role role = true
is_role custom = false

-- `UserView`, as far as the dialog reads it: the ids of the roles and the permissions of its own.
pub record UserView : Type 0 where
  pub id : ℕ
  pub role_ids : Option (List ℕ)
  pub custom_permissions : Option (List PermissionDraft)

-- The values of a dialog for the access of a user.
pub record AccessForm : Type 0 where
  pub mode : Mode
  pub selected_roles : List ℕ
  pub permissions : List PermissionDraft

-- The arguments of `useState` in `EditAccessDialog`.
unfoldable pub access_form : UserView → AccessForm
access_form u = record {
  mode = if is_nil (or_else u.custom_permissions []) then role else custom;
  selected_roles = or_else u.role_ids [];
  permissions = or_else u.custom_permissions [];
}

-- The body of `updateUser`.
pub record AccessUpdate : Type 0 where
  pub role_ids : List ℕ
  pub permissions : List PermissionDraft
  pub clear_permissions : Bool

-- `save.mutationFn` of `EditAccessDialog`
unfoldable pub access_update : AccessForm → AccessUpdate
access_update f = record {
  role_ids = if is_role f.mode then f.selected_roles else [];
  permissions = if is_role f.mode then [] else f.permissions;
  clear_permissions = is_role f.mode;
}

-- internal/api/users.go, `update` where nothing fails: the roles are replaced when some are sent or
-- the permissions are cleared, the permissions always, since the dialog sends them.
unfoldable pub updated_user : UserView → AccessUpdate → UserView
updated_user u a = record {
  id = u.id;
  role_ids = if not (is_nil a.role_ids) || a.clear_permissions then some a.role_ids else u.role_ids;
  custom_permissions = some a.permissions;
}

-- `CreateUserDialog`, which is reset each time it is opened.
pub record NewUserForm : Type 0 where
  pub username : String
  pub password : String
  pub access : AccessForm

unfoldable reset_new_user : NewUserForm
reset_new_user = record {
  username = "";
  password = "";
  access = record { mode = role; selected_roles = []; permissions = [] };
}

-- The effect on `open`.
unfoldable pub on_open : Bool → NewUserForm → NewUserForm
unfolding reset_new_user
on_open is_open f = if is_open then reset_new_user else f

-- The body of `createUser`.
record NewUser : Type 0 where
  pub username : String
  pub password : String
  pub role_ids : List ℕ
  pub permissions : List PermissionDraft

-- The button "Create" is disabled without a name or a password.
unfoldable create_user_request : NewUserForm → Option NewUser
create_user_request f =
    if nonempty f.username && nonempty f.password
    then some (record {
      username = f.username;
      password = f.password;
      role_ids = if is_role f.access.mode then f.access.selected_roles else [];
      permissions = if is_role f.access.mode then [] else f.access.permissions;
    })
    else none

-- `Role`, as far as `RoleEditor` reads it.
record RoleView : Type 0 where
  pub id : ℕ
  pub name : String
  pub description : String
  pub permissions : List PermissionDraft

-- The values of `RoleEditor`, and the body that it sends.
record RoleForm : Type 0 where
  pub name : String
  pub description : String
  pub permissions : List PermissionDraft

-- The arguments of `useState` in `RoleEditor`.
unfoldable role_form : Option RoleView → RoleForm
role_form none = record { name = ""; description = ""; permissions = [] }
role_form (some r) = record {
  name = r.name;
  description = r.description;
  permissions = r.permissions;
}

data RoleCall : Type 0 where
  create_role : RoleForm → RoleCall
  update_role : ℕ → RoleForm → RoleCall

-- `save.mutationFn` of `RoleEditor`
unfoldable save_role : Option RoleView → RoleForm → RoleCall
save_role none f = create_role f
save_role (some r) f = update_role r.id f
