-- ===== src/Project/Save/Laws.antt =====
-- The files of the server after the calls of a save.
use vps_pilot.Base.{
  String, ◌≡◌, Bool, true, false, Option, none, some, List, [], ◌∷◌, ◌==◌, if◌then◌else◌,
}
use vps_pilot.Base.Dict.{Dict}
use vps_pilot.Project.Save.{Call, delete_project_file, upsert_project_file, differs}

-- What the second loop leaves under a name that had the first value, is kept with the second one and
-- is read as the third.
abbrev settled : Option String → Option String → Option String → Option String
settled old none r = r
settled old (some c) r = if differs old c then some c else r

-- What the third loop leaves.
abbrev added : Bool → Option String → Option String → Option String
added true now r = r
added false none r = r
added false (some c) r = some c

abbrev is_there : Option String → Bool
is_there none = false
is_there (some c) = true

-- The files of the server: how one is read, and what the two calls do.
module _ {S : Type 0} (read : String → S → Option String) (delete_file : String → S → S)
    (upsert_file : String → String → S → S)
    (read-delete : (n m : String) (s : S)
      → read m (delete_file n s) ≡ (if n == m then none else read m s))
    (read-upsert : (n c m : String) (s : S)
      → read m (upsert_file n c s) ≡ (if n == m then some c else read m s)) where
  abbrev pub answer : Call → S → S
  answer (delete_project_file n) s = delete_file n s
  answer (upsert_project_file n c) s = upsert_file n c s

  abbrev pub answer_all : List Call → S → S
  answer_all [] s = s
  answer_all (c ∷ cs) s = answer_all cs (answer c s)
