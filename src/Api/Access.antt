-- ===== src/Api/Access.antt =====
-- api/auth.ts, api/users.ts, api/roles.ts and api/secrets.ts.
use vps_pilot.Base.{ℕ, String, ◌<>◌, List, [], ◌∷◌}
use vps_pilot.Js.{Value, undefined, obj, num, str, arr, Items, nil, cons, field, end, show_ℕ}
use vps_pilot.Client.{form, value, Call, get, post, put, patch, delete}

record LoginRequest : Type 0 where
  pub username : String
  pub password : String

-- `Array<{ secretId: number; envVarName: string }>`
abbrev attachments : List (ℕ × String) → Items
attachments [] = nil
attachments ((id, name) ∷ more) =
    cons (obj (field "secretId" (num (show_ℕ id)) (field "envVarName" (str name) end)))
      (attachments more)

-- `login`
unfoldable login : LoginRequest → Call
unfolding post
login request =
    post "/api/login" (form (("username", request.username) ∷ ("password", request.password) ∷ []))

-- `logout`
unfoldable logout : Call
unfolding post
logout = post "/api/logout" (value undefined)

-- `getUsers`
unfoldable get_users : Call
unfolding get
get_users = get "/api/users"

-- `createUser`
unfoldable create_user : Value → Call
unfolding post
create_user payload = post "/api/users" (value payload)

-- `updateUser`
unfoldable update_user : ℕ → Value → Call
unfolding patch show_ℕ
update_user id payload = patch ("/api/users/" <> (show_ℕ id)) (value payload)

-- `deleteUser`
unfoldable delete_user : ℕ → Call
unfolding delete show_ℕ
delete_user id = delete ("/api/users/" <> (show_ℕ id))

-- `getRoles`
unfoldable get_roles : Call
unfolding get
get_roles = get "/api/roles"

-- `createRole`
unfoldable pub create_role : Value → Call
unfolding post
create_role payload = post "/api/roles" (value payload)

-- `updateRole`
unfoldable pub update_role : ℕ → Value → Call
unfolding put show_ℕ
update_role id payload = put ("/api/roles/" <> (show_ℕ id)) (value payload)

-- `deleteRole`
unfoldable delete_role : ℕ → Call
unfolding delete show_ℕ
delete_role id = delete ("/api/roles/" <> (show_ℕ id))

-- `listSecrets`
unfoldable list_secrets : Call
unfolding get
list_secrets = get "/api/secrets"

-- `createSecret`
unfoldable create_secret : Value → Call
unfolding post
create_secret payload = post "/api/secrets" (value payload)

-- `updateSecret`
unfoldable update_secret : ℕ → Value → Call
unfolding put show_ℕ
update_secret id payload = put ("/api/secrets/" <> (show_ℕ id)) (value payload)

-- `deleteSecret`
unfoldable delete_secret : ℕ → Call
unfolding delete show_ℕ
delete_secret id = delete ("/api/secrets/" <> (show_ℕ id))

-- `revealSecret`
unfoldable reveal_secret : ℕ → Call
unfolding post show_ℕ
reveal_secret id = post ("/api/secrets/" <> ((show_ℕ id) <> "/reveal")) (value (obj end))

-- `listProjectSecrets`
unfoldable list_project_secrets : String → Call
unfolding get
list_project_secrets project_name = get ("/api/projects/" <> (project_name <> "/secrets"))

-- `setProjectSecrets`
unfoldable set_project_secrets : String → List (ℕ × String) → Call
unfolding put show_ℕ
set_project_secrets project_name secrets =
    put ("/api/projects/" <> (project_name <> "/secrets"))
      (value (obj (field "secrets" (arr (attachments secrets)) end)))
