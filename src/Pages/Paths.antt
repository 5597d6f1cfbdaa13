-- ===== src/Pages/Paths.antt =====
-- pages/ContainerFiles.tsx: the path that is shown, and the links that change it.
pub mod Laws
use vps_pilot.Base.Filter.{keep}
use Prim.Native.Char.{code}
use Prim.Native.String.{[], ◌∷◌}
use vps_pilot.Base.{
  ℕ, zero, suc, String, ◌<>◌, Bool, true, false, Option, none, some, List, eqb, if◌then◌else◌,
}
use vps_pilot.Base.Text.{nonempty, split, join}
use vps_pilot.Base.Uri.{encode}

-- `s.endsWith(c)`, for one character.
unfoldable pub ends_with : ℕ → String → Bool
ends_with sep [] = false
ends_with sep (c ∷ s) = let rest = ends_with sep s in if nonempty s then rest else eqb (code c) sep

-- `path.split("/").filter(Boolean)`
unfoldable pub breadcrumbs : String → List String
unfolding split
breadcrumbs path = keep nonempty (split b'/' path)

-- `path.endsWith("/") ? path + entry.name : path + "/" + entry.name`
unfoldable pub entry_path : String → String → String
unfolding ends_with
entry_path path name = if ends_with b'/' path then path <> name else path <> ("/" <> name)

pub record DirEntry : Type 0 where
  pub name : String
  pub is_dir : Bool

-- `navigate`
unfoldable pub navigate : DirEntry → String → String
unfolding entry_path
navigate entry path = if entry.is_dir then entry_path path entry.name else path

-- `xs.slice(0, n)`
unfoldable pub take {ℓ} : {A : Type ℓ} → ℕ → List A → List A
take zero xs = List.[]
take (suc n) List.[] = List.[]
take (suc n) (List.◌∷◌ x xs) = List.◌∷◌ x (take n xs)

-- `goTo`; the house at the front goes to -1, which is none.
unfoldable pub go_to : Option ℕ → String → String
unfolding breadcrumbs take join
go_to none path = "/"
go_to (some idx) path = "/" <> join "/" (take (suc idx) (breadcrumbs path))

-- `downloadUrl`
unfoldable download_url : String → String → String → String → String
unfolding entry_path encode
download_url name id path entry_name =
    "/api/projects/"
    <> (name
        <> ("/containers/"
            <> (id <> ("/files/download?path=" <> encode (entry_path path entry_name)))))
