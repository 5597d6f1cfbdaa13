-- ===== src/Access/Dialogs/Laws.antt =====
-- pages/Users.tsx: the access that is saved without a change is the one that was there.
use vps_pilot.Base.{
  ◌≡◌, refl, sym, ap, Bool, true, false, not, ◌||◌, List, [], ◌∷◌, is_nil, or_else, Bool-cases, inl,
  inr,
}
use vps_pilot.Access.Dialogs.{role, UserView, access_form, access_update, updated_user}

nil_of : {A : Type 0} (xs : List A) → is_nil xs ≡ true → xs ≡ []
nil_of [] h = refl
nil_of (x ∷ xs) h = cc

or_true : (b : Bool) → (b || true) ≡ true
or_true true = refl
or_true false = refl

role_again :
    (u : UserView)
    → is_nil (or_else u.custom_permissions []) ≡ true
    → access_form (updated_user u (access_update (access_form u))) ≡ access_form u
unfolding access_form access_update updated_user
role_again u h =
    rw (h, or_true (not (is_nil (or_else u.role_ids []))))
      (ap (λ ps. record { mode = role; selected_roles = or_else u.role_ids []; permissions = ps })
        (sym (nil_of (or_else u.custom_permissions []) h)))

custom_again :
    (u : UserView)
    → is_nil (or_else u.custom_permissions []) ≡ false
    → access_form (updated_user u (access_update (access_form u))) ≡ access_form u
unfolding access_form access_update updated_user
custom_again u h = rw (h, h) refl

-- Access that is opened and saved without a change is shown again as it was, since the server
-- keeps the roles of a user that an update with permissions alone does not name.
pub access_kept :
    (u : UserView) → access_form (updated_user u (access_update (access_form u))) ≡ access_form u
access_kept u = elim (Bool-cases (is_nil (or_else u.custom_permissions []))) [
  | inl h ↦ role_again u h
  | inr h ↦ custom_again u h
]
