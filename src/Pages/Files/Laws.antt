-- ===== src/Pages/Files/Laws.antt =====
-- pages/Files.tsx: what the editor shows as saved is what the server has.
use vps_pilot.Base.{String, ◌≡◌, refl, ap, ◌∙◌, true, false, not, Option, none, some, eq_refl, ◌⊎◌}
use vps_pilot.Base.Scan.{is_some}
use vps_pilot.Base.Dict.{Dict, lookup, insert, lookup-insert}
use vps_pilot.Pages.Files.{
  EditorState, FilesPage, editor_dirty, open_editor, type_text, press_save, save_done, save_failed,
  press_delete, delete_done, delete_failed, close_editor,
}

-- No request is on its way.
abbrev Idle : FilesPage → Type 0
Idle p = (p.saving ≡ none) × (p.deleting ≡ none)

-- One event after another, where the person does nothing but close the editor while a request is on
-- its way.
pub data Step : FilesPage → FilesPage → Type 0 where
  opens : {p : FilesPage} (path name : String) → Idle p → Step p (open_editor path name p)
  types : {p : FilesPage} (val : String) → Idle p → Step p (type_text val p)
  saves : {p : FilesPage} → Idle p → Step p (press_save p)
  saved : {p : FilesPage} → is_some p.saving ≡ true → Step p (save_done p)
  refused : {p : FilesPage} → Step p (save_failed p)
  deletes : {p : FilesPage} (path : String) → Idle p → Step p (press_delete path p)
  deleted : {p : FilesPage} → Step p (delete_done p)
  kept : {p : FilesPage} → Step p (delete_failed p)
  closes : {p : FilesPage} → Step p (close_editor p)

pub data Steps : FilesPage → FilesPage → Type 0 where
  stays : {p : FilesPage} → Steps p p
  goes : {p q r : FilesPage} → Step p q → Steps q r → Steps p r

-- What the editor takes for saved is stored.
abbrev OriginalStored : Option EditorState → Dict String → Type 0
OriginalStored none stored = Unit
OriginalStored (some e) stored = lookup e.path stored ≡ some e.original_content

-- The text that is being saved is the one in the editor.
abbrev SaveFits : Option (String × String) → Option EditorState → Type 0
SaveFits none editor = Unit
SaveFits (some (path, content)) none = Unit
SaveFits (some (path, content)) (some e) = (path ≡ e.path) × (content ≡ e.content)

-- The editor that a deletion has captured is the one that is open, or it was closed since.
abbrev DeleteFits : Option (String × Option EditorState) → Option EditorState → Type 0
DeleteFits none editor = Unit
DeleteFits (some (path, was)) editor = (was ≡ editor) ⊎ (editor ≡ none)

abbrev pub Sound : FilesPage → Type 0
Sound p =
    OriginalStored p.editor p.stored
    × SaveFits p.saving p.editor
    × DeleteFits p.deleting p.editor
    × ((p.saving ≡ none) ⊎ (p.deleting ≡ none))

-- The page as it is opened.
unfoldable pub opened : Dict String → FilesPage
opened stored = record { editor = none; saving = none; deleting = none; stored = stored }

stored_text :
    (e : EditorState) (stored : Dict String)
    → lookup e.path (insert e.path e.content stored) ≡ some e.content
stored_text e stored = lookup-insert e.path e.path e.content stored ∙ rw (eq_refl e.path) refl

-- When an unsaved text is being saved and something is typed before the answer, the answer marks
-- the new text as saved, while the server has the old one.
pub typed_while_saving :
    (e : EditorState) (val : String) (deleting : Option (String × Option EditorState))
    (stored : Dict String)
    → editor_dirty (some e) ≡ true
    → (editor_dirty
          (save_done (
            type_text val (
              press_save (record {
                editor = some e;
                saving = none;
                deleting = deleting;
                stored = stored;
              })))).editor
        ≡ false)
      × (lookup e.path
            (save_done (
              type_text val (
                press_save (record {
                  editor = some e;
                  saving = none;
                  deleting = deleting;
                  stored = stored;
                })))).stored
          ≡ some e.content)
unfolding save_done type_text press_save
typed_while_saving e val deleting stored h = rw h (ap not (eq_refl val), stored_text e stored)
