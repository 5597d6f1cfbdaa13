-- ===== src/Lib.antt =====
-- The browser client of vps-pilot (web/src), as definitions that compute and theorems about them.
--
-- The client edits Docker Compose files, crontabs, roles and settings, and talks to the server of the
-- repository by HTTP and web sockets. Modelled are the parts that decide something; see below for
-- what is left out.
--
-- - Base, Base/Test, Base/Text, Base/Lists, Base/Dict: the conditional, lists, `split` and `join` of
--   texts, and objects used as dictionaries (association lists in insertion order; JavaScript would
--   list integer-like keys first). Base/Scan has the tests and cuts of a text (`startsWith`, `trim`),
--   Base/Uri `encodeURIComponent` and `URLSearchParams` over UTF-8, Base/Sets a `Set`, Base/Filter
--   `filter`.
-- - Js: the values that js-yaml makes of a document (`Value`), with `typeof`, truth, `String(v)`,
--   `Object.entries` and property reads. A number is the text that `String` gives of it, which
--   determines it. `Result` is a computation that may throw a TypeError.
-- - Compose: web/src/components/compose. Port and Mount are the short forms of types.ts; Service has
--   its types; Parse is `parseService` and `parseCompose` of serializer.ts, Serialize is
--   `serializeService` and `serializeCompose`. The object that the serializer fills is a list of
--   assignments (`Writes`), one for each `if (…) out[key] = …`, in the source's order. Stable
--   has the theorems on saving, Reading those on reading a document.
--
-- - Builder: web/src/components/compose/ComposeBuilder.tsx. Used is `syncTopLevelVolumes`; Keys has the
--   loops that rename a key or set a value in a fresh object, and the search for a free name; Services
--   is the component `ComposeBuilder` with its four handlers, and Services/Edits a session of them as
--   a relation; Panels is the two top-level panels and the variables; Image is `parseImageRef` and
--   `ImageField` as a state machine of events; Sections is the inputs of a service's card.
--
-- - Socket: web/src/hooks/useWebSocket.ts, one run of the effect as a relation between its states. What
--   the browser may do next is decided by the phase of the socket and by the timer that waits.
--
-- - Access: Drafts is the drafts of permissions that web/src/pages/Roles.tsx and Users.tsx edit alike,
--   Session is web/src/store/auth.ts with the effect of hooks/useAuth.ts and the links of
--   pages/AppLayout.tsx. The query's data and error are arguments.
--   Dialogs is what the dialogs of these two pages show when they are opened and what they send.
--
-- - Cron: Dialog is web/src/components/CronEntryDialog.tsx with its presets, Page the edits of the
--   entries in web/src/pages/CronJobs.tsx; Entry is the type of api/cron.ts and the expression shown.
--
-- - Project: Save is the edits of a project's files and the calls of `handleSave` for them, which
--   web/src/pages/ProjectDetail.tsx and ProjectEditor.tsx share. The server's files are a parameter:
--   what is read after a deletion and after an upsert is stated by two hypotheses. Deployment is
--   `useDeployState` of ProjectDetail.tsx, with its sockets numbered. Variables is the edits of the
--   environment and the test for changed images, Secrets the secrets that ProjectEditor.tsx attaches.
--
-- - Client: web/src/api/client.ts. Token is the regular expression that finds the CSRF token among the
--   cookies; the rest is `request` and the object `api`. A request is what is handed to fetch, and its
--   outcome the value it returns or the error it throws. What fetch gives, JSON.parse,
--   decodeURIComponent and toLowerCase are arguments; no answer stands for a fetch that rejects.
--
-- - Api: the functions of web/src/api, each as the call that it makes of Client: Docker (containers.ts,
--   docker.ts, files.ts), Projects, Access (auth.ts, users.ts, roles.ts, secrets.ts) and Server.
--
-- - Pages: Images is the selection and the removal in web/src/pages/Images.tsx, and Images/Build its
--   dialog for a build; Files the editor of Files.tsx, with the server's files as a function; Paths the
--   path of ContainerFiles.tsx; Streams the lines of Logs.tsx, ProjectLogs.tsx and Events.tsx; Paging
--   AuditLogs.tsx; Metrics the figures of System.tsx and Dashboard.tsx; Containers the form of
--   Containers.tsx; Forms the dialogs of Secrets.tsx, Registries.tsx and Notifications.tsx. A page keeps
--   its state in a record, and a session of a person is a list of steps.
--
-- js-yaml is not under this repository: `load` and `dump` are arguments of `parse_compose` and
-- `serialize_compose`, and the theorem that needs them assumes that `load` reads back what was
-- dumped. Recursion is structural everywhere but in `show_ℕ`, whose fuel n + 1 is above the number of
-- digits of n, and in `free_from`, whose fuel is one more than the names that can be taken: the names
-- that the loop tries are distinct.
--
-- A name that every JavaScript object has, such as "constructor", counts as present for `in` and for
-- `networks[n]` in the code and as absent in the model.
--
-- Not modelled: rendering, styles, routing and the UI kit (web/src/components/ui), backup.ts of
-- web/src/api, the terminal and charts, and the Go server, but for the update of a user's access.
pub mod Base
pub mod Js
pub mod Compose
pub mod Builder
pub mod Socket
pub mod Access
pub mod Cron
pub mod Project
pub mod Client
pub mod Api
pub mod Pages
