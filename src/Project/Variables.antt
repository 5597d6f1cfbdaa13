-- ===== src/Project/Variables.antt =====
-- pages/ProjectDetail.tsx and pages/ProjectEditor.tsx: the variables of a project, and the test for
-- changed images. The set of images of a text (`extractImages`) is taken as given.
pub mod Laws
pub mod Images
use vps_pilot.Base.{
  ℕ, String, Bool, true, false, not, ◌&&◌, ◌||◌, Option, none, some, List, [], ◌∷◌, ◌++◌, eqb,
  length, if◌then◌else◌,
}
use vps_pilot.Base.Text.{nonempty}
use vps_pilot.Base.Scan.{trim}
use vps_pilot.Base.Dict.{Dict, insert}
use vps_pilot.Base.Lists.{edit_at, remove_at}
use vps_pilot.Base.Sets.{has}

pub record EnvEntry : Type 0 where
  pub key : String
  pub value : String

-- `Object.entries(detail.envVars ?? {}).map(([key, value]) => ({ key, value }))`
unfoldable pub load_entries : Dict String → List EnvEntry
load_entries [] = []
load_entries ((k, v) ∷ vars) = record { key = k; value = v } ∷ load_entries vars

-- `addEnvEntry`
unfoldable add_env_entry : List EnvEntry → List EnvEntry
add_env_entry es = es ++ record { key = ""; value = "" } ∷ []

-- `removeEnvEntry`
unfoldable remove_env_entry : ℕ → List EnvEntry → List EnvEntry
unfolding remove_at
remove_env_entry i es = remove_at i es

-- `updateEnvEntry(i, "key", val)` and `updateEnvEntry(i, "value", val)`
unfoldable update_env_key : ℕ → String → List EnvEntry → List EnvEntry
unfolding edit_at
update_env_key i val es = edit_at i (λ e. record e { key = val }) es

unfoldable update_env_value : ℕ → String → List EnvEntry → List EnvEntry
unfolding edit_at
update_env_value i val es = edit_at i (λ e. record e { value = val }) es

-- The variables that are sent: entries of a blank key are left out, keys are trimmed, and of equal
-- ones the last counts, as in `Object.fromEntries`.
unfoldable pub put_entry : EnvEntry → Dict String → Dict String
unfolding insert trim
put_entry e env = if nonempty (trim e.key) then insert (trim e.key) e.value env else env

unfoldable pub env_onto : Dict String → List EnvEntry → Dict String
unfolding put_entry
env_onto env [] = env
env_onto env (e ∷ es) = env_onto (put_entry e env) es

unfoldable pub env_of : List EnvEntry → Dict String
unfolding env_onto
env_of es = env_onto [] es

-- `[...imagesAfter].some((img) => !imagesBefore.has(img))`
abbrev pub some_missing : List String → List String → Bool
some_missing before [] = false
some_missing before (img ∷ imgs) = not (has img before) || some_missing before imgs

-- `imagesChanged`
unfoldable pub images_changed : List String → List String → Bool
images_changed before after = not (eqb (length after) (length before)) || some_missing before after
