-- ===== src/Access/Session/Laws.antt =====
-- Which links a user sees.
use vps_pilot.Base.{◌≡◌, refl, ap, Bool, true, false, none, some, [], ◌∷◌, or_else}
use vps_pilot.Access.Session.{
  AuthStore, set_user, Me, sync_user, visible_items, nav_items, projects_link,
}

-- Whoever was signed in: when the request for the user fails and no data are there, the projects are
-- the only link, and for an administrator every link is there.
session_links :
    (me : Me) (failed : Bool) (s : AuthStore)
    → me.me_is_admin ≡ some true
    → (visible_items (sync_user (record { query_data = none; is_error = true }) s) nav_items
        ≡ projects_link ∷ [])
      × (visible_items (sync_user (record { query_data = some me; is_error = failed }) s) nav_items
          ≡ nav_items)
unfolding visible_items sync_user
session_links me failed s admin = (
  refl,
  ap
      (λ o.
        visible_items
          (set_user (some me.me_username) (or_else o false) (some (or_else me.me_permissions [])) s)
          nav_items)
      admin,
)
