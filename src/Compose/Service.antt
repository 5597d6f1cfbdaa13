-- ===== src/Compose/Service.antt =====
-- components/compose/types.ts: the types of a Compose file. An optional field is an `Option`; a field
-- that the parser fills by a cast holds whatever value the document has there.
use vps_pilot.Base.{String, Bool, Option, List}
use vps_pilot.Base.Dict.{Dict}
use vps_pilot.Js.{Value, Number}
use vps_pilot.Compose.Port.{PortSpec}
use vps_pilot.Compose.Mount.{VolumeMount}

-- What an element of `ports` can be at run time: a list item that is no text, number or object is
-- passed on as it is, null or a Boolean.
pub data PortEntry : Type 0 where
  spec : PortSpec → PortEntry
  null_port : PortEntry
  bool_port : Bool → PortEntry

-- An element of `volumes`: a short form that was read, or any other value, as it is.
pub data MountEntry : Type 0 where
  mount : VolumeMount → MountEntry
  raw_mount : Value → MountEntry

pub record BuildConfig : Type 0 where
  pub context : Option String
  pub dockerfile : Option String
  pub args : Option Value
  pub target : Option String

pub record HealthCheck : Type 0 where
  pub test : Option String
  pub interval : Option String
  pub timeout : Option String
  pub retries : Option Number
  pub start_period : Option String
  pub disable : Option Bool

pub record ResourceLimits : Type 0 where
  pub cpus : Option String
  pub memory : Option String

pub record Resources : Type 0 where
  pub limits : Option ResourceLimits

pub record Deploy : Type 0 where
  pub resources : Option Resources

pub record LoggingConfig : Type 0 where
  pub driver : Option String
  pub options : Option Value

pub record DependsOnEntry : Type 0 where
  pub service : String
  pub condition : Value

pub record Ulimit : Type 0 where
  pub soft : Option Number
  pub hard : Option Number

pub record ComposeService : Type 0 where
  pub image : Option String
  pub build : Option BuildConfig
  pub container_name : Option String
  pub hostname : Option String
  pub restart : Option String
  pub ports : Option (List PortEntry)
  pub expose : Option (List String)
  pub environment : Option (Dict String)
  pub volumes : Option (List MountEntry)
  pub networks : Option (Dict Value)
  pub depends_on : Option (List DependsOnEntry)
  pub healthcheck : Option HealthCheck
  pub deploy : Option Deploy
  pub logging : Option LoggingConfig
  pub labels : Option (Dict Value)
  pub command : Option String
  pub entrypoint : Option String
  pub user : Option String
  pub working_dir : Option String
  pub env_file : Option (List String)
  pub privileged : Option Bool
  pub read_only : Option Bool
  pub tty : Option Bool
  pub stdin_open : Option Bool
  pub init : Option Bool
  pub extra_hosts : Option (List String)
  pub cap_add : Option (List String)
  pub cap_drop : Option (List String)
  pub pid : Option String
  pub ipc : Option String
  pub shm_size : Option String
  pub stop_signal : Option String
  pub stop_grace_period : Option String
  pub scale : Option Number
  pub profiles : Option (List String)
  pub tmpfs : Option (List String)
  pub dns : Option (List String)
  pub dns_search : Option (List String)
  pub security_opt : Option (List String)
  pub sysctls : Option (Dict Value)
  pub devices : Option (List String)
  pub ulimits : Option (Dict Ulimit)

-- The maps of networks and volumes are casts of what stands in the document.
pub record ComposeFile : Type 0 where
  pub version : Option String
  pub services : Dict ComposeService
  pub networks : Value
  pub volumes : Value
