-- ===== src/Pages/Forms.antt =====
-- pages/Secrets.tsx, pages/Registries.tsx and pages/Notifications.tsx: a list with one dialog for new
-- and old entries. The dialog stays mounted while it is closed (it then returns null), so the values
-- that `useState` starts with are read once, when the page is opened. Waiting for the answer of a
-- request is left out; the request itself is the result of a submission.
pub mod Laws
use vps_pilot.Base.{
  ℕ, String, Bool, true, false, not, ◌&&◌, ◌||◌, Option, none, some, List, [], ◌∷◌, ◌++◌, ◌==◌,
  if◌then◌else◌, or_else,
}
use vps_pilot.Base.Text.{nonempty}
use vps_pilot.Base.Scan.{is_some}

-- `dialogOpen`, `editTarget` and the form of the dialog.
pub record FormPage (I F : Type 0) : Type 0 where
  pub dialog_open : Bool
  pub edit_target : Option I
  pub form : F

pub data Request (F : Type 0) : Type 0 where
  creates : F → Request F
  updates : ℕ → F → Request F

module _ {I F : Type 0} where
  -- The button for a new entry.
  abbrev press_new : FormPage I F → FormPage I F
  press_new p = record p { dialog_open = true; edit_target = none }

  -- The button with the pencil.
  abbrev pub press_edit : I → FormPage I F → FormPage I F
  press_edit i p = record p { dialog_open = true; edit_target = some i }

  -- `onClose`
  abbrev close : FormPage I F → FormPage I F
  close p = record p { dialog_open = false }

-- `onSubmit`: an update where there is a target.
abbrev request_for : {F : Type 0} → Option ℕ → F → Request F
request_for none f = creates f
request_for (some id) f = updates id f

-- `Secret`, and the form of `SecretFormDialog`
pub record Secret : Type 0 where
  pub id : ℕ
  pub name : String
  pub description : String

pub record SecretForm : Type 0 where
  pub name : String
  pub description : String
  pub value : String

-- The arguments of `useState`: the fields of the secret that is edited, with no value.
abbrev pub secret_name : Option Secret → String
secret_name none = ""
secret_name (some s) = s.name

abbrev secret_description : Option Secret → String
secret_description none = ""
secret_description (some s) = s.description

abbrev pub secret_id : Option Secret → Option ℕ
secret_id none = none
secret_id (some s) = some s.id

unfoldable secret_form : Option Secret → SecretForm
secret_form initial = record {
  name = secret_name initial;
  description = secret_description initial;
  value = "";
}

abbrev pub SecretsPage : Type 0
SecretsPage = FormPage Secret SecretForm

-- The page as it is opened: the dialog is mounted without a target.
unfoldable pub open_secrets : SecretsPage
unfolding secret_form
open_secrets = record { dialog_open = false; edit_target = none; form = secret_form none }

-- `handleSubmit` of `SecretFormDialog`
unfoldable pub submit_secret : SecretsPage → Option (Request SecretForm)
submit_secret p =
    if not (nonempty p.form.name)
    then none
    else if not (is_some p.edit_target) && not (nonempty p.form.value)
    then none
    else some (request_for (secret_id p.edit_target) p.form)

-- What a person does on the page of the secrets. The field of the name is disabled while a secret
-- is edited.
pub data SecretStep : Type 0 where
  press_new_secret dismiss : SecretStep
  submit : Bool → SecretStep
  edit_secret : Secret → SecretStep
  type_name type_description type_value : String → SecretStep

abbrev with_name : String → SecretsPage → SecretsPage
with_name t p = record p { form = record p.form { name = t } }

-- The page and the requests that were sent from it, the last first. A request that is carried out
-- closes the dialog; after an error it stays open.
abbrev after_submit :
    Bool
    → Option (Request SecretForm)
    → SecretsPage
    → List (Request SecretForm)
    → SecretsPage × List (Request SecretForm)
after_submit done none p sent = (p, sent)
after_submit done (some r) p sent = (if done then close p else p, r ∷ sent)

unfoldable pub secret_step :
    SecretStep → SecretsPage → List (Request SecretForm) → SecretsPage × List (Request SecretForm)
unfolding submit_secret
secret_step press_new_secret p sent = (press_new p, sent)
secret_step dismiss p sent = (close p, sent)
secret_step (submit done) p sent = after_submit done (submit_secret p) p sent
secret_step (edit_secret s) p sent = (press_edit s p, sent)
secret_step (type_name t) p sent = (if is_some p.edit_target then p else with_name t p, sent)
secret_step (type_description t) p sent =
    (record p { form = record p.form { description = t } }, sent)
secret_step (type_value t) p sent = (record p { form = record p.form { value = t } }, sent)

unfoldable pub secret_steps :
    List SecretStep
    → SecretsPage
    → List (Request SecretForm)
    → SecretsPage × List (Request SecretForm)
unfolding secret_step
secret_steps [] p sent = (p, sent)
secret_steps (s ∷ ss) p sent = let next = secret_step s p sent in secret_steps ss next.0 next.1

-- `Registry`, and the form of `RegistryFormDialog`
pub record RegistryForm : Type 0 where
  pub name : String
  pub url : String
  pub username : String
  pub secret : String

pub record Registry : Type 0 where
  pub id : ℕ
  pub name : String
  pub url : String
  pub username : String

abbrev pub registry_id : Option Registry → Option ℕ
registry_id none = none
registry_id (some r) = some r.id

unfoldable registry_form : Option Registry → RegistryForm
registry_form none = record { name = ""; url = ""; username = ""; secret = "" }
registry_form (some r) = record { name = r.name; url = r.url; username = r.username; secret = "" }

-- `handleSubmit` of `RegistryFormDialog`
unfoldable pub submit_registry : FormPage Registry RegistryForm → Option (Request RegistryForm)
submit_registry p =
    if not (nonempty p.form.name)
      || not (nonempty p.form.url)
      || not (nonempty p.form.username)
      || (not (nonempty p.form.secret) && not (is_some p.edit_target))
    then none
    else some (request_for (registry_id p.edit_target) p.form)

-- `NotificationChannel`, and the form of `ChannelDialog`. `JSON.stringify` of the template is an
-- argument of it.
pub record ChannelForm : Type 0 where
  pub name : String
  pub channel_type : String
  pub config : String
  pub enabled : Bool

pub record NotificationChannel : Type 0 where
  pub id : ℕ
  pub form : ChannelForm

abbrev pub channel_id : Option NotificationChannel → Option ℕ
channel_id none = none
channel_id (some ch) = some ch.id

unfoldable channel_form : (String → String) → Option NotificationChannel → ChannelForm
channel_form default_config none = record {
  name = "";
  channel_type = "webhook";
  config = default_config "webhook";
  enabled = true;
}
channel_form default_config (some ch) = ch.form

-- `handleTypeChange`
unfoldable change_type :
    (String → String)
    → String
    → FormPage NotificationChannel ChannelForm
    → FormPage NotificationChannel ChannelForm
change_type default_config t p = record p {
  form = record p.form {
    channel_type = t;
    config = if is_some p.edit_target then p.form.config else default_config t;
  };
}

-- `handleSubmit` of `ChannelDialog`
unfoldable pub submit_channel :
    FormPage NotificationChannel ChannelForm → Option (Request ChannelForm)
submit_channel p =
    if not (nonempty p.form.name) || not (nonempty p.form.channel_type)
    then none
    else some (request_for (channel_id p.edit_target) p.form)

-- `onClose` of the channels forgets the target too.
abbrev close_channel :
    FormPage NotificationChannel ChannelForm → FormPage NotificationChannel ChannelForm
close_channel p = record p { dialog_open = false; edit_target = none }
