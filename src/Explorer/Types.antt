-- ===== src/Explorer/Types.antt =====
-- The values that packages/explorer-state passes around: profiles, descriptors, preferences.
-- A field that the source checks with `typeof` or `Array.isArray` is an option here: `none` is any
-- value of another type.
use eacl_demo.Base.{ℕ, Bool, String, List, Option}

pub record Deployment : Type 0 where
  pub demo_sha : String
  pub eacl_sha : String
  pub artifact_sha256 : String
  pub deployment_id : String
  pub data_manifest_sha256 : String

pub record Profile : Type 0 where
  pub id : String
  pub backend : Option String
  pub storage : Option String
  pub state : String
  pub reason : Option String
  pub deployment : Option Deployment

-- What a running service says of itself.
pub record Identity : Type 0 where
  pub profile_id : String
  pub deployment : Deployment

pub record Mapping : Type 0 where
  pub backend : String
  pub storage : String

pub record Capabilities : Type 0 where
  pub operations : Option (List String)
  pub consistency_modes : Option (List String)
  pub snapshot_behavior : Option String
  pub cache_behavior : Option String
  pub mutation_locality : Option String
  pub limitations : Option (List String)

pub record Descriptor : Type 0 where
  pub identity : Option Identity
  pub profile : Option Mapping
  pub capabilities : Option Capabilities
  pub execution : String
  pub snap_start : String

pub record Preferences : Type 0 where
  pub theme : String
  pub page_size : ℕ
  pub cache_enabled : Bool
  pub consistency_mode : String
  pub expanded : List String
