-- ===== src/Snapshot/Header.antt =====
-- isOverlaybdFileHeader (overlay.go): a file is an overlaybd blob if its first 24 bytes are one of
-- two signatures, read as three little-endian words.
pub mod Signatures
use accelerated_container_im.Base.{
  ℕ, ◌+◌, ◌*◌, Bool, false, ◌&&◌, ◌||◌, List, [], ◌∷◌, ltb, if◌then◌else◌, ◌==◌, nat_eq,
}
use accelerated_container_im.Base.Lists.{length, take, drop}

-- binary.LittleEndian.Uint64 on the bytes of a slice
unfoldable pub little_endian : List ℕ → ℕ
little_endian [] = 0
little_endian (b ∷ bs) = b + 256 * little_endian bs

-- `header[from:from+n]`
abbrev pub slice : ℕ → ℕ → List ℕ → List ℕ
slice from n header = take n (drop from header)

unfoldable pub is_overlaybd_file_header : List ℕ → Bool
unfolding nat_eq
is_overlaybd_file_header header =
    if ltb (length header) 24
    then false
    else let magic0 = little_endian (slice 0 8 header) in
      let magic1 = little_endian (slice 8 8 header) in
      let magic2 = little_endian (slice 16 8 header) in
      (magic0 == 281910587246170
        && (magic1 == 7384066304294679924 && magic2 == 7017278244700045632))
      || (magic0 == 564050879402828
          && (magic1 == 5478704352671792741 && magic2 == 9993152565363659426))
