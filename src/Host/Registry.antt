-- ===== src/Host/Registry.antt =====
-- The values of the OCI image specification, and the rows of the conversion database
-- (cmd/convertor/database/database.go). Fields that the program only passes on are left out.
use accelerated_container_im.Base.{String, Option, List}
use accelerated_container_im.Base.Int.{ℤ}
use accelerated_container_im.Base.Dict.{Dict}

-- v1.Descriptor; the platform is the text that platforms.Format gives.
pub record Descriptor : Type 0 where
  pub media_type : String
  pub digest : String
  pub size : ℤ
  pub annotations : Dict String
  pub platform : Option String

-- v1.Manifest
pub record Manifest : Type 0 where
  pub media_type : String
  pub config : Descriptor
  pub layers : List Descriptor
  pub artifact_type : String
  pub subject : Option Descriptor

-- v1.Image; `rest` stands for the fields besides the root file system.
pub record Image : Type 0 where
  pub diff_ids : List String
  pub rest : String

-- v1.Index
pub record Index : Type 0 where
  pub media_type : String
  pub manifests : List Descriptor
  pub artifact_type : String
  pub subject : Option Descriptor

-- LayerEntry
pub record LayerEntry : Type 0 where
  pub converted_digest : String
  pub data_size : ℤ
  pub repository : String
  pub chain_id : String
  pub host : String

-- ManifestEntry
pub record ManifestEntry : Type 0 where
  pub converted_digest : String
  pub original_digest : String
  pub data_size : ℤ
  pub repository : String
  pub host : String
  pub media_type : String
