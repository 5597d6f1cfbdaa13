-- ===== src/Api/Routes.antt =====
-- The paths whose arguments are encoded, cut at their slashes as a router cuts them.
use Prim.Native.Char.{Char}
use text.Mathlib.TextLemmas.{nil-append}
use vps_pilot.Base.{String, ◌<>◌, ◌≡◌, refl, ap, ◌∙◌, false, List, [], ◌∷◌, arith}
use vps_pilot.Base.Text.{
  split, Free, Free-of_test, has_char, Free-append, split-of_Free, split-append,
}
use vps_pilot.Base.Glue.{glue, split-glue, split-glue-Free}
use vps_pilot.Base.Uri.{is_kept, encode, encode-Free}
use vps_pilot.Js.{Value}
use vps_pilot.Client.{Call, get, put, delete}
use vps_pilot.Api.Projects.{list_files, get_file_content, update_file, delete_file}
use vps_pilot.Api.Server.{get_crontab, save_crontab_raw, save_crontab_entries}

abbrev slash : Char
slash = "/"

-- An encoded text holds no slash, question mark, ampersand or hash.
no_slash : (s : String) → Free b'/' (encode s)
unfolding is_kept
no_slash s = encode-Free b'/' refl (omega arith) s

-- The parts of a path between its slashes.
unfoldable segments : Call → List String
unfolding split
segments c = split b'/' c.path

-- Behind a path, an encoded text is one segment, whether or not the path goes on.
segments-last :
    (path s : String) → split b'/' (path <> encode s) ≡ glue (split b'/' path) (encode s ∷ [])
segments-last path s = split-glue-Free b'/' path (encode s) (no_slash s)

segments-inside :
    (path s tail : String)
    → Free b'/' tail
    → split b'/' (path <> (encode s <> (String.◌∷◌ slash tail)))
      ≡ glue (split b'/' path) (encode s ∷ tail ∷ [])
segments-inside path s tail h =
    split-glue b'/' path (encode s <> (String.◌∷◌ slash tail))
    ∙ ap (glue (split b'/' path)) (
        split-append slash (encode s) tail (no_slash s)
        ∙ ap (λ ts. encode s ∷ ts) (split-of_Free b'/' tail h))

-- Whatever the user is called, the calls for a crontab have the segments of their route.
crontab_routes :
    (user content : String) (entries : Value)
    → (segments (get_crontab user) ≡ "" ∷ "api" ∷ "cron" ∷ encode user ∷ [])
      × (segments (save_crontab_raw user content) ≡ "" ∷ "api" ∷ "cron" ∷ encode user ∷ "raw" ∷ [])
      × (segments (save_crontab_entries user entries)
          ≡ "" ∷ "api" ∷ "cron" ∷ encode user ∷ "entries" ∷ [])
unfolding segments get_crontab save_crontab_raw save_crontab_entries get put glue
crontab_routes user content entries = (
  segments-last "/api/cron/" user ∙ rw nil-append refl,
  segments-inside "/api/cron/" user "raw" (Free-of_test b'/' "raw" refl) ∙ rw nil-append refl,
  segments-inside "/api/cron/" user "entries" (Free-of_test b'/' "entries" refl)
      ∙ rw nil-append refl,
)

-- A file's path is one parameter of the query, whatever it holds.
abbrev pub IsFileQuery : String → String → Call → Type 0
IsFileQuery route path c =
    (split b'?' c.path ≡ route ∷ ("path=" <> encode path) ∷ [])
    × Free b'&' c.path
    × Free b'#' c.path

file_query :
    (route start path : String)
    → split b'?' start ≡ route ∷ "path=" ∷ []
    → has_char b'&' start ≡ false
    → has_char b'#' start ≡ false
    → IsFileQuery route path (get (start <> encode path))
unfolding is_kept get glue
file_query route start path e a h = (
  split-glue-Free b'?' start (encode path) (encode-Free b'?' refl (omega arith) path)
      ∙ ap (λ ps. glue ps (encode path ∷ [])) e,
  Free-append b'&' start (encode path) (Free-of_test b'&' start a)
      (encode-Free b'&' refl (omega arith) path),
  Free-append b'#' start (encode path) (Free-of_test b'#' start h)
      (encode-Free b'#' refl (omega arith) path),
)

-- The calls to list, read, write and delete a file ask for its path alone, whatever characters it
-- holds: the route, and one parameter that no ampersand or hash of the path can end.
pub file_queries :
    (path content : String)
    → IsFileQuery "/api/files" path (list_files path)
      × IsFileQuery "/api/files/content" path (get_file_content path)
      × IsFileQuery "/api/files" path (update_file path content)
      × IsFileQuery "/api/files" path (delete_file path)
unfolding list_files get_file_content update_file delete_file get put delete split
file_queries path content = (
  file_query "/api/files" "/api/files?path=" path refl refl refl,
  file_query "/api/files/content" "/api/files/content?path=" path refl refl refl,
  file_query "/api/files" "/api/files?path=" path refl refl refl,
  file_query "/api/files" "/api/files?path=" path refl refl refl,
)
