-- ===== src/Project/Secrets/Laws.antt =====
-- pages/ProjectEditor.tsx: a secret is attached once.
use vps_pilot.Base.Filter.{keep, keep-tested, OnSome, nth-OnSome}
use vps_pilot.Base.{
  ℕ, String, ◌≡◌, refl, ◌∙◌, Bool, true, false, not, ◌||◌, Option, none, some, List, [], ◌∷◌, ◌++◌,
  eqb, arith, Bool-cases, inl, inr,
}
use vps_pilot.Base.Lists.{get_elem?}
use vps_pilot.Project.Secrets.{
  ProjectSecret, OfferedSecret, add_attached_secret, remove_attached_secret,
  update_attached_secret_env_var, is_attached, unattached_secrets,
}

-- No secret is attached twice.
abbrev pub AttachedOnce : List ProjectSecret → Type 0
AttachedOnce [] = Unit
AttachedOnce (s ∷ more) = (is_attached s.secret_id more ≡ false) × AttachedOnce more

is_attached-append :
    (id : ℕ) (xs ys : List ProjectSecret)
    → is_attached id (xs ++ ys) ≡ (is_attached id xs || is_attached id ys)
is_attached-append id [] ys = refl
is_attached-append id (x ∷ xs) ys = ground (arith, is_attached-append id xs ys)

is_attached-keep :
    (id : ℕ) (p : ProjectSecret → Bool) (xs : List ProjectSecret)
    → is_attached id xs ≡ false
    → is_attached id (keep p xs) ≡ false
is_attached-keep id p [] h = refl
is_attached-keep id p (x ∷ xs) h = ground (arith, is_attached-keep id p xs)

keep-AttachedOnce :
    (p : ProjectSecret → Bool) (xs : List ProjectSecret)
    → AttachedOnce xs
    → AttachedOnce (keep p xs)
keep-AttachedOnce p [] h = tt
keep-AttachedOnce p (x ∷ xs) (h, hs) = elim (Bool-cases (p x)) [
  | inl t ↦ rw t (is_attached-keep x.secret_id p xs h, keep-AttachedOnce p xs hs)
  | inr f ↦ rw f (keep-AttachedOnce p xs hs)
]

add-AttachedOnce :
    (id : ℕ) (name : String) (xs : List ProjectSecret)
    → is_attached id xs ≡ false
    → AttachedOnce xs
    → AttachedOnce (add_attached_secret id name xs)
unfolding add_attached_secret
add-AttachedOnce id name [] n h = (refl, tt)
add-AttachedOnce id name (x ∷ xs) n (h, hs) = (
  ground (
    arith,
    is_attached-append x.secret_id xs
        (record { secret_id = id; secret_name = name; env_var_name = name } ∷ []),
  ),
  add-AttachedOnce id name xs (ground arith) hs,
)

is_attached-update :
    (j id : ℕ) (v : String) (xs : List ProjectSecret)
    → is_attached j (update_attached_secret_env_var id v xs) ≡ is_attached j xs
unfolding update_attached_secret_env_var
is_attached-update j id v [] = refl
is_attached-update j id v (x ∷ xs) = elim (Bool-cases (eqb x.secret_id id)) [
  | inl t ↦ rw (t, is_attached-update j id v xs) refl
  | inr f ↦ rw (f, is_attached-update j id v xs) refl
]

update-AttachedOnce :
    (id : ℕ) (v : String) (xs : List ProjectSecret)
    → AttachedOnce xs
    → AttachedOnce (update_attached_secret_env_var id v xs)
unfolding update_attached_secret_env_var
update-AttachedOnce id v [] h = tt
update-AttachedOnce id v (x ∷ xs) (h, hs) = elim (Bool-cases (eqb x.secret_id id)) [
  | inl t ↦ rw t (is_attached-update x.secret_id id v xs ∙ h, update-AttachedOnce id v xs hs)
  | inr f ↦ rw f (is_attached-update x.secret_id id v xs ∙ h, update-AttachedOnce id v xs hs)
]

abbrev IsFreeOffer : List ProjectSecret → OfferedSecret → Type 0
IsFreeOffer attached s = not (is_attached s.id attached) ≡ true

-- Each secret that is offered is not attached yet.
offer-free :
    (attached : List ProjectSecret) (offered : List OfferedSecret) (n : ℕ)
    → OnSome (IsFreeOffer attached) (get_elem? (unattached_secrets attached offered) n)
unfolding unattached_secrets
offer-free attached offered n =
    nth-OnSome (IsFreeOffer attached) (unattached_secrets attached offered) n
      (keep-tested (λ s. not (is_attached s.id attached)) offered)

-- What a person does in the list: to attach one of the secrets that are offered, to detach one, or to
-- name its variable.
pub data AttachStep : Type 0 where
  attach : ℕ → AttachStep
  detach : ℕ → AttachStep
  name_var : ℕ → String → AttachStep

abbrev attach_offer : Option OfferedSecret → List ProjectSecret → List ProjectSecret
attach_offer none attached = attached
attach_offer (some s) attached = add_attached_secret s.id s.name attached

module _ (offered : List OfferedSecret) where
  unfoldable attach_step : AttachStep → List ProjectSecret → List ProjectSecret
  unfolding add_attached_secret remove_attached_secret update_attached_secret_env_var
      unattached_secrets
  attach_step (attach n) attached =
      attach_offer (get_elem? (unattached_secrets attached offered) n) attached
  attach_step (detach id) attached = remove_attached_secret id attached
  attach_step (name_var id v) attached = update_attached_secret_env_var id v attached

  unfoldable pub attach_steps : List AttachStep → List ProjectSecret → List ProjectSecret
  unfolding attach_step
  attach_steps [] attached = attached
  attach_steps (s ∷ ss) attached = attach_steps ss (attach_step s attached)

  offer-AttachedOnce :
      (o : Option OfferedSecret) (attached : List ProjectSecret)
      → OnSome (IsFreeOffer attached) o
      → AttachedOnce attached
      → AttachedOnce (attach_offer o attached)
  offer-AttachedOnce none attached f h = h
  offer-AttachedOnce (some s) attached f h = add-AttachedOnce s.id s.name attached (ground arith) h

  attach_step-AttachedOnce :
      (s : AttachStep) (attached : List ProjectSecret)
      → AttachedOnce attached
      → AttachedOnce (attach_step s attached)
  unfolding attach_step remove_attached_secret
  attach_step-AttachedOnce (attach n) attached h =
      offer-AttachedOnce (get_elem? (unattached_secrets attached offered) n) attached
        (offer-free attached offered n) h
  attach_step-AttachedOnce (detach id) attached h =
      keep-AttachedOnce (λ s. not (eqb s.secret_id id)) attached h
  attach_step-AttachedOnce (name_var id v) attached h = update-AttachedOnce id v attached h

  -- However secrets are attached, detached and named, none is attached twice, if none was.
  pub attach_steps-AttachedOnce :
      (ss : List AttachStep) (attached : List ProjectSecret)
      → AttachedOnce attached
      → AttachedOnce (attach_steps ss attached)
  unfolding attach_steps
  attach_steps-AttachedOnce [] attached h = h
  attach_steps-AttachedOnce (s ∷ ss) attached h =
      attach_steps-AttachedOnce ss (attach_step s attached) (attach_step-AttachedOnce s attached h)
