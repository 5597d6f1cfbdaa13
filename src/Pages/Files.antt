-- ===== src/Pages/Files.antt =====
-- pages/Files.tsx: the editor of a file. An awaited request is two events, one that sends it and one
-- with its answer; `saving` and `deleting` keep what was captured when it was sent. `stored` is what
-- the server has of each file. The deletion of a directory is left out.
pub mod Laws
use vps_pilot.Base.{
  String, Bool, true, false, not, ◌&&◌, ◌||◌, Option, none, some, List, [], ◌∷◌, ◌==◌,
  if◌then◌else◌,
}
use vps_pilot.Base.Scan.{is_some}
use vps_pilot.Base.Dict.{Dict, lookup, insert, erase}

pub record EditorState : Type 0 where
  pub path : String
  pub name : String
  pub original_content : String
  pub content : String

pub record FilesPage : Type 0 where
  pub editor : Option EditorState
  pub saving : Option (String × String)
  pub deleting : Option (String × Option EditorState)
  pub stored : Dict String

-- `isDirty`
abbrev pub editor_dirty : Option EditorState → Bool
editor_dirty none = false
editor_dirty (some e) = not (e.content == e.original_content)

-- `openEditor`, when the content has come; an error leaves the editor as it was.
abbrev pub loaded : String → String → Option String → Option EditorState → Option EditorState
loaded path name none editor = editor
loaded path name (some content) editor =
    some (record { path = path; name = name; original_content = content; content = content })

unfoldable pub open_editor : String → String → FilesPage → FilesPage
unfolding lookup
open_editor path name p = record p { editor = loaded path name (lookup path p.stored) p.editor }

-- The editor's `onChange`.
abbrev pub with_content : String → Option EditorState → Option EditorState
with_content val none = none
with_content val (some e) = some (record e { content = val })

unfoldable pub type_text : String → FilesPage → FilesPage
type_text val p = record p { editor = with_content val p.editor }

-- `handleSave` up to its request, whose button is disabled while a save is on its way and when
-- nothing has changed.
abbrev pub captured : Option EditorState → Option (String × String)
captured none = none
captured (some e) = some (e.path, e.content)

unfoldable pub press_save : FilesPage → FilesPage
press_save p =
    if is_some p.saving || not (editor_dirty p.editor)
    then p
    else record p { saving = captured p.editor }

-- `setEditor((e) => e ? { ...e, originalContent: e.content } : null)`
abbrev pub marked_saved : Option EditorState → Option EditorState
marked_saved none = none
marked_saved (some e) = some (record e { original_content = e.content })

-- `handleSave` behind its request: the file was written.
abbrev pub written : Option (String × String) → Dict String → Dict String
written none stored = stored
written (some (path, content)) stored = insert path content stored

unfoldable pub save_done : FilesPage → FilesPage
unfolding insert
save_done p = record p {
  editor = marked_saved p.editor;
  saving = none;
  stored = written p.saving p.stored;
}

unfoldable pub save_failed : FilesPage → FilesPage
save_failed p = record p { saving = none }

-- `handleDelete` up to its request; it captures the editor of that time.
unfoldable pub press_delete : String → FilesPage → FilesPage
press_delete path p = record p { deleting = some (path, p.editor) }

-- `editor?.path === path`
abbrev pub shows_path : String → Option EditorState → Bool
shows_path path none = false
shows_path path (some e) = e.path == path

-- `handleDelete` behind its request: the file is gone.
unfoldable pub deleted_from : Option (String × Option EditorState) → FilesPage → FilesPage
unfolding erase
deleted_from none p = p
deleted_from (some (path, was)) p = record p {
  editor = if shows_path path was then none else p.editor;
  deleting = none;
  stored = erase path p.stored;
}

unfoldable pub delete_done : FilesPage → FilesPage
unfolding deleted_from
delete_done p = deleted_from p.deleting p

unfoldable pub delete_failed : FilesPage → FilesPage
delete_failed p = record p { deleting = none }

-- The button "Close".
unfoldable pub close_editor : FilesPage → FilesPage
close_editor p = record p { editor = none }
