-- ===== src/Project/Variables/Laws.antt =====
-- pages/ProjectDetail.tsx and pages/ProjectEditor.tsx: the variables that are loaded are saved again.
use mathlib.Core.Path.{subst}
use mathlib.Core.List.{append-nil}
use vps_pilot.Base.{String, ◌≡◌, refl, sym, ap, ◌∙◌, true, [], ◌∷◌, ◌++◌, if◌then◌else◌, All}
use vps_pilot.Base.Text.{nonempty}
use vps_pilot.Base.Scan.{trim}
use vps_pilot.Base.Dict.{Dict, insert, keys, NodupKeys, insert-middle}
use vps_pilot.Project.Variables.{load_entries, put_entry, env_onto, env_of}

-- A name without white space around it.
abbrev IsTrimmed : String → Type 0
IsTrimmed k = (trim k ≡ k) × (nonempty k ≡ true)

put_entry-trimmed :
    (k v : String) (env : Dict String)
    → trim k ≡ k
    → nonempty k ≡ true
    → put_entry (record { key = k; value = v }) env ≡ insert k v env
unfolding put_entry
put_entry-trimmed k v env t n =
    ap (λ key. if nonempty key then insert key v env else env) t ∙ rw n refl

env_onto-loaded :
    (vars acc : Dict String)
    → All IsTrimmed (keys vars)
    → NodupKeys (acc ++ vars)
    → env_onto acc (load_entries vars) ≡ acc ++ vars
unfolding env_onto load_entries
env_onto-loaded [] acc hs u = sym (append-nil acc)
env_onto-loaded ((k, v) ∷ vars) acc ((t, n), hs) u =
    let placed = insert-middle acc k v vars u in
    ap (λ env. env_onto env (load_entries vars)) (put_entry-trimmed k v acc t n)
    ∙ env_onto-loaded vars (insert k v acc) hs (subst NodupKeys (sym placed) u)
    ∙ placed

-- Saving a project whose variables were loaded and not edited sends the same variables, in their
-- order, if their names are distinct, not empty and have no white space around them.
pub env_of-loaded :
    (vars : Dict String)
    → All IsTrimmed (keys vars)
    → NodupKeys vars
    → env_of (load_entries vars) ≡ vars
unfolding env_of
env_of-loaded vars hs u = env_onto-loaded vars [] hs u
