-- ===== src/Pages/Forms/Laws.antt =====
-- pages/Secrets.tsx, pages/Registries.tsx and pages/Notifications.tsx: what a submission sends.
use vps_pilot.Base.{◌≡◌, refl, ◌∙◌, false, none, List, [], ◌∷◌, All}
use vps_pilot.Base.Text.{nonempty}
use vps_pilot.Pages.Forms.{
  Request, SecretForm, SecretsPage, open_secrets, submit_secret, SecretStep, press_new_secret,
  dismiss, submit, edit_secret, type_name, type_description, type_value, secret_step, secret_steps,
}

-- The step types no name for a new secret.
abbrev TypesNoName : SecretStep → Type 0
TypesNoName (type_name t) = ⊥
TypesNoName _ = Unit

submit-nameless : (p : SecretsPage) → nonempty p.form.name ≡ false → submit_secret p ≡ none
unfolding submit_secret
submit-nameless p h = rw h refl

step-nameless :
    (s : SecretStep) (p : SecretsPage) (sent : List (Request SecretForm))
    → TypesNoName s
    → nonempty p.form.name ≡ false
    → (nonempty (secret_step s p sent).0.form.name ≡ false) × ((secret_step s p sent).1 ≡ sent)
unfolding secret_step
step-nameless press_new_secret p sent n h = (h, refl)
step-nameless dismiss p sent n h = (h, refl)
step-nameless (submit done) p sent n h = rw (submit-nameless p h) (h, refl)
step-nameless (edit_secret s) p sent n h = (h, refl)
step-nameless (type_name t) p sent n h = absurd n
step-nameless (type_description t) p sent n h = (h, refl)
step-nameless (type_value t) p sent n h = (h, refl)

steps-nameless :
    (ss : List SecretStep) (p : SecretsPage) (sent : List (Request SecretForm))
    → All TypesNoName ss
    → nonempty p.form.name ≡ false
    → (secret_steps ss p sent).1 ≡ sent
unfolding secret_steps
steps-nameless [] p sent ns h = refl
steps-nameless (s ∷ ss) p sent (n, ns) h =
    let (still, same) = step-nameless s p sent n h in
    steps-nameless ss (secret_step s p sent).0 (secret_step s p sent).1 ns still ∙ same

-- On the page of the secrets, as long as no name is typed for a new one, no request is sent,
-- whatever secret is opened for editing and whatever is typed and submitted.
pub secret_not_edited :
    (ss : List SecretStep) → All TypesNoName ss → (secret_steps ss open_secrets []).1 ≡ []
unfolding open_secrets
secret_not_edited ss ns = steps-nameless ss open_secrets [] ns refl
