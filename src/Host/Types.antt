-- ===== src/Host/Types.antt =====
-- The values that calls take and return: error classes, containerd's snapshot records, and
-- pkg/types/types.go's backing store configuration.
use accelerated_container_im.Base.{String, Bool, List, string_eq}
use accelerated_container_im.Base.Int.{ℤ, pos}
use accelerated_container_im.Base.Dict.{Dict}

-- The classes of error that the program tells apart. An error that is wrapped (`%w`) keeps its
-- class; messages are not modelled.
pub data Error : Type 0 where
  not_exist already_exists not_found again forbidden failed : Error
  -- A Go panic; no caller of a function that may panic drops its error.
  panicked : Error

pub data Result {ℓ} (A : Type ℓ) : Type ℓ where
  ok : A → Result A
  err : Error → Result A

-- snapshots.Kind: the three kinds of snapshot
pub data Kind : Type 0 where
  view active committed : Kind

-- snapshots.Info
pub record Info : Type 0 where
  pub kind : Kind
  pub name : String
  pub parent : String
  pub labels : Dict String

-- storage.Snapshot
pub record Snapshot : Type 0 where
  pub kind : Kind
  pub id : String
  pub parent_ids : List String

-- OverlayBDBSConfigLower
pub record Lower : Type 0 where
  pub gzip_index : String
  pub file : String
  pub digest : String
  pub target_file : String
  pub target_digest : String
  pub size : ℤ
  pub dir : String

-- OverlayBDBSConfigUpper
pub record Upper : Type 0 where
  pub index : String
  pub data_file : String
  pub target : String
  pub gzip_index : String
  pub vsize : ℤ

-- OverlayBDBSConfig
pub record Config : Type 0 where
  pub repo_blob_url : String
  pub lowers : List Lower
  pub upper : Upper
  pub result_file : String
  pub acceleration_layer : Bool
  pub record_trace_path : String

-- Go's zero values of the two structs.
abbrev pub no_lower : Lower
no_lower = record {
  gzip_index = "";
  file = "";
  digest = "";
  target_file = "";
  target_digest = "";
  size = pos 0;
  dir = "";
}

abbrev pub no_upper : Upper
no_upper = record { index = ""; data_file = ""; target = ""; gzip_index = ""; vsize = pos 0 }
