-- ===== src/Api/Docker.antt =====
-- api/containers.ts, api/docker.ts and api/registries.ts.
use vps_pilot.Base.{
  ℕ, String, ◌<>◌, Bool, true, false, Option, none, some, [], ◌∷◌, ◌++◌, if◌then◌else◌,
}
use vps_pilot.Base.Dict.{Dict}
use vps_pilot.Base.Uri.{encode, query_text}
use vps_pilot.Compose.Port.{filled, shown}
use vps_pilot.Js.{Value, undefined, obj, bool, str, field, end, show_ℕ}
use vps_pilot.Client.{value, Call, get, post, put, delete}

-- A flag that is true where it is not given, in a template.
abbrev pub flag : Option Bool → String
flag none = "true"
flag (some true) = "true"
flag (some false) = "false"

-- `${force ? "?force=true" : ""}`
abbrev forced : Bool → String
forced force = if force then "?force=true" else ""

-- `listContainers`
unfoldable list_containers : Option Bool → Call
unfolding get
list_containers all = get ("/api/containers?all=" <> (flag all))

-- `createContainer`
unfoldable create_container : Value → Call
unfolding post
create_container req = post "/api/containers" (value req)

-- `removeContainer`
unfoldable remove_container : String → Call
unfolding delete
remove_container id = delete ("/api/containers/" <> id)

-- `listAllNetworks`
unfoldable list_all_networks : Call
unfolding get
list_all_networks = get "/api/networks"

-- `getNetwork`
unfoldable get_network : String → Call
unfolding get
get_network network_id = get ("/api/networks/" <> network_id)

-- `listAllVolumes`
unfoldable list_all_volumes : Call
unfolding get
list_all_volumes = get "/api/volumes"

-- `getVolume`
unfoldable get_volume : String → Call
unfolding get encode
get_volume volume_name = get ("/api/volumes/" <> (encode volume_name))

-- `listAllImages`
unfoldable list_all_images : Call
unfolding get
list_all_images = get "/api/images"

-- `listProjectNetworks`
unfoldable list_project_networks : String → Call
unfolding get
list_project_networks project_name = get ("/api/projects/" <> (project_name <> "/networks"))

-- `getProjectNetwork`
unfoldable get_project_network : String → String → Call
unfolding get
get_project_network project_name network_id =
    get ("/api/projects/" <> (project_name <> ("/networks/" <> network_id)))

-- `listProjectVolumes`
unfoldable list_project_volumes : String → Call
unfolding get
list_project_volumes project_name = get ("/api/projects/" <> (project_name <> "/volumes"))

-- `getProjectVolume`
unfoldable get_project_volume : String → String → Call
unfolding get encode
get_project_volume project_name volume_name =
    get ("/api/projects/" <> (project_name <> ("/volumes/" <> (encode volume_name))))

-- `listProjectImages`
unfoldable list_project_images : String → Call
unfolding get
list_project_images project_name = get ("/api/projects/" <> (project_name <> "/images"))

-- `deleteImage`
unfoldable pub delete_image : String → Bool → Call
unfolding delete
delete_image id force = delete ("/api/images/" <> (id <> (forced force)))

-- `createNetwork`
unfoldable create_network : Value → Call
unfolding post
create_network req = post "/api/networks" (value req)

-- `deleteNetwork`
unfoldable delete_network : String → Call
unfolding delete
delete_network network_id = delete ("/api/networks/" <> network_id)

-- `connectContainer`
unfoldable connect_container : String → String → Call
unfolding post
connect_container network_id container_id =
    post ("/api/networks/" <> (network_id <> "/connect"))
      (value (obj (field "containerId" (str container_id) end)))

-- `disconnectContainer`
unfoldable disconnect_container : String → String → Bool → Call
unfolding post
disconnect_container network_id container_id force =
    post ("/api/networks/" <> (network_id <> "/disconnect"))
      (value (obj (field "containerId" (str container_id) (field "force" (bool force) end))))

-- `createVolume`
unfoldable create_volume : Value → Call
unfolding post
create_volume req = post "/api/volumes" (value req)

-- `deleteVolume`
unfoldable delete_volume : String → Bool → Call
unfolding delete encode
delete_volume volume_name force =
    delete ("/api/volumes/" <> ((encode volume_name) <> (forced force)))

-- `inspectContainer`
unfoldable inspect_container : String → String → Call
unfolding get
inspect_container project_name container_id =
    get ("/api/projects/" <> (project_name <> ("/containers/" <> (container_id <> "/inspect"))))

-- `startImageBuild`
unfoldable start_image_build : Value → Call
unfolding post
start_image_build spec = post "/api/images/build" (value spec)

-- `listRegistries`
unfoldable list_registries : Call
unfolding get
list_registries = get "/api/registries"

-- `createRegistry`
unfoldable create_registry : Value → Call
unfolding post
create_registry payload = post "/api/registries" (value payload)

-- `updateRegistry`
unfoldable update_registry : ℕ → Value → Call
unfolding put show_ℕ
update_registry id payload = put ("/api/registries/" <> (show_ℕ id)) (value payload)

-- `deleteRegistry`
unfoldable delete_registry : ℕ → Call
unfolding delete show_ℕ
delete_registry id = delete ("/api/registries/" <> (show_ℕ id))

-- `testRegistry`
unfoldable test_registry : ℕ → Call
unfolding post show_ℕ
test_registry id = post ("/api/registries/" <> ((show_ℕ id) <> "/test")) (value undefined)

-- `listRepositories`
unfoldable list_repositories : ℕ → Call
unfolding get show_ℕ
list_repositories id = get ("/api/registries/" <> ((show_ℕ id) <> "/repositories"))

-- `listRepoTags`
unfoldable list_repo_tags : ℕ → String → Call
unfolding get show_ℕ
list_repo_tags id repo_name =
    get ("/api/registries/" <> ((show_ℕ id) <> ("/repositories/" <> (repo_name <> "/tags"))))

-- `if (q) params.set("q", q)`
abbrev q_param : Option String → Dict String
q_param q = if filled q then ("q", shown q) ∷ [] else []

-- `if (registryId != null) params.set("registryId", String(registryId))`
abbrev registry_param : Option ℕ → Dict String
registry_param none = []
registry_param (some id) = ("registryId", show_ℕ id) ∷ []

-- `searchImageTags`
unfoldable search_image_tags : String → Option String → Option ℕ → Call
unfolding get query_text show_ℕ
search_image_tags image q registry_id =
    get (
      "/api/images/tags?"
      <> query_text (("image", image) ∷ q_param q ++ registry_param registry_id))
