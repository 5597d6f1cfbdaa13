-- ===== src/Project/Secrets.antt =====
-- pages/ProjectEditor.tsx: the secrets that are attached to a project.
pub mod Laws
use vps_pilot.Base.Filter.{keep}
use vps_pilot.Base.{
  ℕ, String, Bool, true, false, not, ◌||◌, Option, none, some, List, [], ◌∷◌, ◌++◌, eqb,
  if◌then◌else◌,
}

pub record ProjectSecret : Type 0 where
  pub secret_id : ℕ
  pub secret_name : String
  pub env_var_name : String

-- `Secret`, as far as the editor reads it.
pub record OfferedSecret : Type 0 where
  pub id : ℕ
  pub name : String

-- `addAttachedSecret`
unfoldable pub add_attached_secret : ℕ → String → List ProjectSecret → List ProjectSecret
add_attached_secret id name attached =
    attached ++ record { secret_id = id; secret_name = name; env_var_name = name } ∷ []

-- `removeAttachedSecret`
unfoldable pub remove_attached_secret : ℕ → List ProjectSecret → List ProjectSecret
remove_attached_secret id attached = keep (λ s. not (eqb s.secret_id id)) attached

abbrev renamed_var : ℕ → String → ProjectSecret → ProjectSecret
renamed_var id env_var s = if eqb s.secret_id id then record s { env_var_name = env_var } else s

-- `updateAttachedSecretEnvVar`
unfoldable pub update_attached_secret_env_var : ℕ → String → List ProjectSecret → List ProjectSecret
update_attached_secret_env_var id env_var [] = []
update_attached_secret_env_var id env_var (s ∷ more) =
    renamed_var id env_var s ∷ update_attached_secret_env_var id env_var more

-- `attachedSecrets.some((a) => a.secretId === id)`
abbrev pub is_attached : ℕ → List ProjectSecret → Bool
is_attached id [] = false
is_attached id (s ∷ more) = eqb s.secret_id id || is_attached id more

-- `unattachedSecrets`
unfoldable pub unattached_secrets : List ProjectSecret → List OfferedSecret → List OfferedSecret
unattached_secrets attached offered = keep (λ s. not (is_attached s.id attached)) offered

-- The effect on the secrets that were loaded: nothing until they are there.
unfoldable on_loaded : Option (List ProjectSecret) → List ProjectSecret → List ProjectSecret
on_loaded none attached = attached
on_loaded (some loaded) attached = loaded

-- The argument of `saveProjectSecrets` in `handleSave`.
unfoldable saved_secrets : List ProjectSecret → List (ℕ × String)
saved_secrets [] = []
saved_secrets (s ∷ more) = (s.secret_id, s.env_var_name) ∷ saved_secrets more
