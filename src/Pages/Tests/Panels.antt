-- ===== src/Pages/Tests/Panels.antt =====
-- Runs of the lists, logs and forms at concrete inputs.
use vps_pilot.Base.{String, ◌<>◌, ◌≡◌, refl, true, false, none, some, List, [], ◌∷◌, arith}
use vps_pilot.Base.Text.{Free-of_test}
use vps_pilot.Base.Scan.{take_last}
use vps_pilot.Pages.Containers.{port_of_line}
use vps_pilot.Pages.Containers.Laws.{port_of_line-forms}
use vps_pilot.Pages.Paging.{pages, current_page}
use vps_pilot.Pages.Paging.Laws.{
  back, forth, turns, IsPage, turns-IsPage, forth_times, forth-reaches,
}
use vps_pilot.Pages.Forms.{
  FormPage, Secret, SecretForm, SecretsPage, open_secrets, SecretStep, submit, edit_secret,
  type_value, secret_steps, Registry, RegistryForm, ChannelForm, NotificationChannel,
}
use vps_pilot.Pages.Forms.Laws.{secret_not_edited}
use vps_pilot.Pages.Streams.{Message, DockerEvent}
use vps_pilot.Pages.Streams.Windows.{
  LogEvent, message, clear, log_events, received, log_events-window,
}
use vps_pilot.Pages.Streams.Numbers.{arrives, clears, page_events, IsKept, page_events-IsKept}

port_of_line-forms_example :
    (port_of_line ("8080" <> (":" <> ("80" <> ("/" <> "udp"))))
      ≡ record { host_port = "8080"; container_port = "80"; protocol = "udp" })
    × (port_of_line ("8080" <> (":" <> "80"))
        ≡ record { host_port = "8080"; container_port = "80"; protocol = "tcp" })
    × (port_of_line ("80" <> ("/" <> "udp"))
        ≡ record { host_port = ""; container_port = "80"; protocol = "udp" })
    × (port_of_line "80" ≡ record { host_port = ""; container_port = "80"; protocol = "tcp" })
port_of_line-forms_example =
    port_of_line-forms "8080" "80" "udp"
      (Free-of_test b':' "8080" refl, Free-of_test b'/' "8080" refl)
      (Free-of_test b':' "80" refl, Free-of_test b'/' "80" refl)
      (Free-of_test b':' "udp" refl, Free-of_test b'/' "udp" refl)

turns-IsPage_example : IsPage 120 (turns 120 (forth ∷ forth ∷ forth ∷ back ∷ []) 0)
turns-IsPage_example = turns-IsPage 120 (forth ∷ forth ∷ forth ∷ back ∷ []) (omega arith)

forth-reaches_example : current_page (forth_times 120 2 0) ≡ 3
unfolding pages
forth-reaches_example = forth-reaches 120 2 (omega arith)

abbrev db_secret : Secret
db_secret = record { id = 1; name = "DB"; description = "" }

abbrev edit_steps : List SecretStep
edit_steps = edit_secret db_secret ∷ type_value "x" ∷ submit true ∷ []

secret_not_edited_example : (secret_steps edit_steps open_secrets []).1 ≡ []
secret_not_edited_example = secret_not_edited edit_steps (tt, (tt, (tt, tt)))

-- The dialogs after an entry was made in each.
abbrev old_secret : SecretForm
old_secret = record { name = "API"; description = "key"; value = "s3cret" }

abbrev old_registry : RegistryForm
old_registry = record { name = "a"; url = "ghcr.io"; username = "u"; secret = "p" }

abbrev old_channel : ChannelForm
old_channel = record { name = "ops"; channel_type = "slack"; config = "{}"; enabled = true }

abbrev secrets_page : SecretsPage
secrets_page = record { dialog_open = false; edit_target = none; form = old_secret }

abbrev registries_page : FormPage Registry RegistryForm
registries_page = record { dialog_open = false; edit_target = none; form = old_registry }

abbrev channels_page : FormPage NotificationChannel ChannelForm
channels_page = record { dialog_open = false; edit_target = none; form = old_channel }

abbrev a_registry : Registry
a_registry = record { id = 2; name = "b"; url = "gcr.io"; username = "v" }

abbrev a_channel : NotificationChannel
a_channel = record {
  id = 3;
  form = record { name = "dev"; channel_type = "email"; config = "[]"; enabled = false };
}

abbrev a_line : String → Message String
a_line s = record { kind = "log"; content = s }

abbrev some_lines : List LogEvent
some_lines = message false (a_line "a") ∷ clear ∷ message false (a_line "b") ∷ []

log_events-window_example : log_events some_lines [] ≡ take_last 2001 (received some_lines [])
log_events-window_example = log_events-window some_lines

abbrev an_event : DockerEvent
an_event = record {
  event_type = "container";
  action = "start";
  actor_name = some "web";
  actor_id = none;
}

page_events-IsKept_example : IsKept (
    page_events
      (arrives false an_event ∷ clears ∷ arrives false an_event ∷ [])
      (record { events = []; next_seq = 0 }))
page_events-IsKept_example =
    page_events-IsKept (arrives false an_event ∷ clears ∷ arrives false an_event ∷ [])
