-- ===== src/Api/Server.antt =====
-- api/backup.ts, api/cron.ts, api/logs.ts, api/metrics.ts, api/notifications.ts and api/system.ts.
use vps_pilot.Base.{ℕ, String, ◌<>◌, Option, or_else}
use vps_pilot.Base.Uri.{encode}
use vps_pilot.Js.{Value, undefined, obj, num, str, field, end, show_ℕ}
use vps_pilot.Client.{value, Call, get, post, put, delete}

-- `listCronUsers`
unfoldable list_cron_users : Call
unfolding get
list_cron_users = get "/api/cron/users"

-- `getCrontab`
unfoldable pub get_crontab : String → Call
unfolding get encode
get_crontab user = get ("/api/cron/" <> (encode user))

-- `saveCrontabRaw`
unfoldable pub save_crontab_raw : String → String → Call
unfolding put encode
save_crontab_raw user content =
    put ("/api/cron/" <> ((encode user) <> "/raw"))
      (value (obj (field "content" (str content) end)))

-- `saveCrontabEntries`
unfoldable pub save_crontab_entries : String → Value → Call
unfolding put encode
save_crontab_entries user entries =
    put ("/api/cron/" <> ((encode user) <> "/entries")) (value entries)

-- `validateCronExpression`
unfoldable validate_cron_expression : String → Option ℕ → Call
unfolding post show_ℕ
validate_cron_expression expression count = post "/api/cron/validate" (
    value (
      obj
        (field "expression" (str expression) (field "count" (num (show_ℕ (or_else count 5))) end))))

-- `getLogHistory`
unfoldable get_log_history : Call
unfolding get
get_log_history = get "/api/logs/history"

-- `getMetrics`
unfoldable get_metrics : Call
unfolding get
get_metrics = get "/api/metrics"

-- `getSystemInfo`
unfoldable get_system_info : Call
unfolding get
get_system_info = get "/api/system/info"

-- `listChannels`
unfoldable list_channels : Call
unfolding get
list_channels = get "/api/notifications/channels"

-- `createChannel`
unfoldable create_channel : Value → Call
unfolding post
create_channel payload = post "/api/notifications/channels" (value payload)

-- `updateChannel`
unfoldable update_channel : ℕ → Value → Call
unfolding put show_ℕ
update_channel id payload = put ("/api/notifications/channels/" <> (show_ℕ id)) (value payload)

-- `deleteChannel`
unfoldable delete_channel : ℕ → Call
unfolding delete show_ℕ
delete_channel id = delete ("/api/notifications/channels/" <> (show_ℕ id))

-- `testChannel`
unfoldable test_channel : ℕ → Call
unfolding post show_ℕ
test_channel id =
    post ("/api/notifications/channels/" <> ((show_ℕ id) <> "/test")) (value undefined)

-- `createRule`
unfoldable create_rule : ℕ → Value → Call
unfolding post show_ℕ
create_rule channel_id payload =
    post ("/api/notifications/channels/" <> ((show_ℕ channel_id) <> "/rules")) (value payload)

-- `updateRule`
unfoldable update_rule : ℕ → Value → Call
unfolding put show_ℕ
update_rule id payload = put ("/api/notifications/rules/" <> (show_ℕ id)) (value payload)

-- `deleteRule`
unfoldable delete_rule : ℕ → Call
unfolding delete show_ℕ
delete_rule id = delete ("/api/notifications/rules/" <> (show_ℕ id))

-- `getVersion`
unfoldable get_version : Call
unfolding get
get_version = get "/api/system/version"

-- `getUpdateStatus`
unfoldable get_update_status : Call
unfolding get
get_update_status = get "/api/system/update/status"

-- `checkUpdate`
unfoldable check_update : Call
unfolding get
check_update = get "/api/system/update/check"

-- `getConfig`
unfoldable get_config : Call
unfolding get
get_config = get "/api/system/config"

-- `updateConfig`
unfoldable update_config : Value → Call
unfolding put
update_config payload = put "/api/system/config" (value payload)
