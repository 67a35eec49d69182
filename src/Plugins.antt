-- ===== src/Plugins.antt =====
-- internal/plugins: manifests of plugins (manifest.go). The enumerations are texts in the source:
-- each has a constructor for the empty text and one for any other.
pub mod Validation
pub mod Normalized
pub mod Matcher
pub mod Settled
pub mod Planned
pub mod RoundTrip
mod Tests
use gigi_dc.Prelude.{String, Bool, List}

pub data SourceKind : Type 0 where
  known manifest_url uploaded_file no_source_kind : SourceKind
  other_source_kind : String → SourceKind

pub data DispatchMode : Type 0 where
  dry_run send_message no_dispatch : DispatchMode
  other_dispatch : String → DispatchMode

pub data SafetyClass : Type 0 where
  public restricted no_safety : SafetyClass
  other_safety : String → SafetyClass

pub data DispatchAdapter : Type 0 where
  prefix_command no_adapter : DispatchAdapter
  other_adapter : String → DispatchAdapter

pub record DeclaredCapability : Type 0 where
  pub name : String
  pub description : String

pub record Trigger : Type 0 where
  pub kind : String
  pub value : String
  pub aliases : List String

pub record Resource : Type 0 where
  pub name : String
  pub purpose : String
  pub source : String

pub record Action : Type 0 where
  pub id : String
  pub name : String
  pub description : String
  pub trigger : Trigger
  pub surfaces : List String
  pub permissions : List String
  pub safety : SafetyClass
  pub dispatch : DispatchMode
  pub adapter : DispatchAdapter
  pub arg_schema : String

-- The field `Use` of a resource is `purpose` here.
pub record Manifest : Type 0 where
  pub id : String
  pub name : String
  pub version : String
  pub source : String
  pub source_kind : SourceKind
  pub discord_application_id : String
  pub discord_bot_user_id : String
  pub manifest_url : String
  pub capabilities : List DeclaredCapability
  pub triggers : List Trigger
  pub actions : List Action
  pub surfaces : List String
  pub permissions : List String
  pub dispatch : DispatchMode
  pub public_dispatch_allowed : Bool
  pub config_schema : String
  pub audit_events : List String
  pub attribution : List Resource
