-- ===== src/Project/Save.antt =====
-- pages/ProjectDetail.tsx and pages/ProjectEditor.tsx: the edits of a project's files, and the calls
-- that `handleSave` makes for them when the project's own update has succeeded. All succeed: a call
-- that fails ends the rest, which are then not made.
pub mod Laws
use vps_pilot.Base.{
  ℕ, String, Bool, true, false, not, ◌&&◌, Option, none, some, List, [], ◌∷◌, ◌++◌, map, ◌==◌,
  if◌then◌else◌, length, eqb,
}
use vps_pilot.Base.Dict.{Dict, lookup, has_key}
use vps_pilot.Base.Lists.{edit_at}
use vps_pilot.Compose.Mount.{is_set}

pub record FileEntry : Type 0 where
  pub filename : String
  pub content : String
  pub to_delete : Option Bool

-- A tab: the Compose file, or the file of an index.
pub data Tab : Type 0 where
  compose_tab : Tab
  file_tab : ℕ → Tab

pub record Editor : Type 0 where
  pub files : List FileEntry
  pub active_tab : Tab

-- `addFile`
unfoldable pub add_file : Editor → Editor
add_file ed = record ed {
  files = ed.files ++ record { filename = ""; content = ""; to_delete = none } ∷ [];
  active_tab = file_tab (length ed.files);
}

abbrev is_tab : ℕ → Tab → Bool
is_tab i (file_tab j) = eqb j i
is_tab i _ = false

-- `removeFile`: the file stays in the list and is marked.
unfoldable pub remove_file : ℕ → Editor → Editor
unfolding edit_at
remove_file i ed = record ed {
  files = edit_at i (λ f. record f { to_delete = some true }) ed.files;
  active_tab = if is_tab i ed.active_tab then compose_tab else ed.active_tab;
}

-- The files that are not marked, by name.
abbrev pub kept_files : List FileEntry → Dict String
kept_files [] = []
kept_files (f ∷ fs) =
    let rest = kept_files fs in if is_set f.to_delete then rest else (f.filename, f.content) ∷ rest

-- A call of the API for the files of the project.
pub data Call : Type 0 where
  delete_project_file : String → Call
  upsert_project_file : String → String → Call

-- The first loop: `for (const orig of originalFiles)`.
unfoldable pub deletions : Dict String → Dict String → List Call
unfolding has_key
deletions current [] = []
deletions current ((name, content) ∷ originals) =
    let rest = deletions current originals in
    if has_key name current then rest else delete_project_file name ∷ rest

-- `!orig || orig.content !== f.content`
abbrev pub differs : Option String → String → Bool
differs none content = true
differs (some old) content = not (old == content)

-- The second loop: `for (const f of files)`, where the content is new.
unfoldable pub changes : Dict String → Dict String → List Call
unfolding lookup
changes originals [] = []
changes originals ((name, content) ∷ files) =
    let rest = changes originals files in
    if differs (lookup name originals) content
    then upsert_project_file name content ∷ rest
    else rest

-- The third loop: `for (const f of files)`, where the name is new.
unfoldable pub additions : Dict String → Dict String → List Call
unfolding has_key
additions originals [] = []
additions originals ((name, content) ∷ files) =
    let rest = additions originals files in
    if has_key name originals then rest else upsert_project_file name content ∷ rest

-- The calls of `handleSave`, in their order.
unfoldable pub save_calls : Dict String → List FileEntry → List Call
unfolding deletions changes additions
save_calls originals files =
    let current = kept_files files in
    deletions current originals ++ (changes originals current ++ additions originals current)
