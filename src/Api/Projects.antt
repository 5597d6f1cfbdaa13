-- ===== src/Api/Projects.antt =====
-- api/projects.ts, api/webhooks.ts and api/files.ts.
use vps_pilot.Base.{ℕ, String, ◌<>◌}
use vps_pilot.Base.Uri.{encode}
use vps_pilot.Js.{Value, undefined, obj, str, field, end, show_ℕ}
use vps_pilot.Client.{value, Call, get, post, put, patch, delete}

data ContainerAction : Type 0 where
  start stop restart : ContainerAction

abbrev action_name : ContainerAction → String
action_name start = "start"
action_name stop = "stop"
action_name restart = "restart"

-- `listProjects`
unfoldable list_projects : Call
unfolding get
list_projects = get "/api/projects"

-- `startProject`
unfoldable start_project : String → Call
unfolding post
start_project name = post ("/api/projects/" <> (name <> "/start")) (value undefined)

-- `stopProject`
unfoldable stop_project : String → Call
unfolding post
stop_project name = post ("/api/projects/" <> (name <> "/stop")) (value undefined)

-- `deleteProject`
unfoldable delete_project : String → Call
unfolding delete
delete_project name = delete ("/api/projects/" <> name)

-- `createProject`
unfoldable create_project : Value → Call
unfolding post
create_project payload = post "/api/projects" (value payload)

-- `updateProject`
unfoldable put_project : String → Value → Call
unfolding put
put_project name payload = put ("/api/projects/" <> name) (value payload)

-- `getProject`
unfoldable get_project : String → Call
unfolding get
get_project name = get ("/api/projects/" <> name)

-- `listProjectFiles`
unfoldable list_project_files : String → Call
unfolding get
list_project_files name = get ("/api/projects/" <> (name <> "/files"))

-- `upsertProjectFile`
unfoldable pub upsert_project_file : String → String → String → Call
unfolding put
upsert_project_file name filename content =
    put ("/api/projects/" <> (name <> "/files"))
      (value (obj (field "filename" (str filename) (field "content" (str content) end))))

-- `deleteProjectFile`
unfoldable pub delete_project_file : String → String → Call
unfolding delete encode
delete_project_file name filename =
    delete ("/api/projects/" <> (name <> ("/files/" <> (encode filename))))

-- `restartProject`
unfoldable restart_project : String → Call
unfolding post
restart_project name = post ("/api/projects/" <> (name <> "/restart")) (value undefined)

-- `containerAction`
unfoldable container_action : String → String → ContainerAction → Call
unfolding post
container_action project_name container_id action =
    post
      ("/api/projects/"
        <> (project_name <> ("/containers/" <> (container_id <> ("/" <> (action_name action))))))
      (value undefined)

-- `checkProjectUpdates`
unfoldable check_project_updates : String → Call
unfolding get
check_project_updates name = get ("/api/projects/" <> (name <> "/updates"))

-- `listWebhooks`
unfoldable list_webhooks : String → Call
unfolding get
list_webhooks project_name = get ("/api/projects/" <> (project_name <> "/webhooks"))

-- `createProjectWebhook`
unfoldable create_project_webhook : String → Call
unfolding post
create_project_webhook project_name =
    post ("/api/projects/" <> (project_name <> "/webhooks")) (value undefined)

-- `createServiceWebhook`
unfoldable create_service_webhook : String → String → Call
unfolding post
create_service_webhook project_name service_name =
    post ("/api/projects/" <> (project_name <> ("/containers/" <> (service_name <> "/webhooks"))))
      (value undefined)

-- `deleteWebhook`
unfoldable delete_webhook : String → ℕ → Call
unfolding delete show_ℕ
delete_webhook project_name webhook_id =
    delete ("/api/projects/" <> (project_name <> ("/webhooks/" <> (show_ℕ webhook_id))))

-- `patchProjectConfig`
unfoldable patch_project_config : String → Value → Call
unfolding patch
patch_project_config project_name config =
    patch ("/api/projects/" <> (project_name <> "/config")) (value config)

-- `listFiles`
unfoldable pub list_files : String → Call
unfolding get encode
list_files path = get ("/api/files?path=" <> (encode path))

-- `getFileContent`
unfoldable pub get_file_content : String → Call
unfolding get encode
get_file_content path = get ("/api/files/content?path=" <> (encode path))

-- `updateFile`
unfoldable pub update_file : String → String → Call
unfolding put encode
update_file path content =
    put ("/api/files?path=" <> (encode path)) (value (obj (field "content" (str content) end)))

-- `deleteFile`
unfoldable pub delete_file : String → Call
unfolding delete encode
delete_file path = delete ("/api/files?path=" <> (encode path))
