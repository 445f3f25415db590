-- ===== src/Store.antt =====
-- pkg/convertor/convertor.go: the conversion of an image in containerd's content store, by the
-- snapshotter's own layers. This file has its state and the names that its parts share.
pub mod Loader
pub mod Remote
pub mod Apply
pub mod Layers
pub mod Image
use accelerated_container_im.Base.{String, ◌<>◌, Bool}
use accelerated_container_im.Base.Int.{ℤ}
use accelerated_container_im.Base.Text.{decimal, replace_char}
use accelerated_container_im.Host.{Host, nanosecond, random_text}
use accelerated_container_im.Host.Exec.{Exec, ask, pure, ◌>>=◌}
use accelerated_container_im.Host.Registry.{Descriptor}

-- ZFileConfig
pub record ZfileConfig : Type 0 where
  pub algorithm : String
  pub block_size : ℤ

-- Layer
pub record Layer : Type 0 where
  pub desc : Descriptor
  pub diff_id : String

-- overlaybdConvertor: the fetcher and the pusher are named by the image reference `ref`; `remote` says
-- whether they and the database are used.
pub record StoreConvertor : Type 0 where
  pub remote : Bool
  pub ref : String
  pub host : String
  pub repo : String
  pub zfile : ZfileConfig
  pub vsize : ℤ

-- convSnapshotNameFormat and ConvContentNameFormat
unfoldable pub conv_name : String → String
conv_name part = "overlaybd-conv-" <> part

module _ (H : Host) where
  -- UniquePart; the random text is encoded with the letters of URLs.
  unfoldable pub unique_part : Exec String
  unfolding decimal replace_char
  unique_part = do
    t ← ask H.number nanosecond
    b ← ask H.text random_text
    pure (decimal t <> "-" <> replace_char b'_' "-" b)
