-- ===== src/Snapshot/Identify/Probes.antt =====
-- What identifySnapshotStorageType (overlay.go) tells, from the files that it looks at, in their order.
use accelerated_container_im.Base.{
  ℕ, zero, suc, ◌≡◌, refl, ◌⊎◌, inl, inr, String, true, none, some, Option, List, [], ◌∷◌, ◌++◌,
  if◌then◌else◌, Bool-cases, arith,
}
use accelerated_container_im.Base.Lists.{take, replicate}
use accelerated_container_im.Host.{Op, History, Host, stat, read_header}
use accelerated_container_im.Host.Exec.{Exec, attempt, pure, on_result, ◌>>=◌}
use accelerated_container_im.Host.Types.{Error, Result, ok, err, not_exist, Info}
use accelerated_container_im.Snapshot.{
  Snapshotter, StorageType, normal, local_block, remote_block, local_layer, magic_file_path,
  sealed_file_path, oci_layer_path, conf_path,
}
use accelerated_container_im.Snapshot.Header.{is_overlaybd_file_header}
use accelerated_container_im.Snapshot.Header.Signatures.{
  Bytes, zfile_signature, lsmt_signature, is_overlaybd_file_header_iff, take-Bytes,
}
use accelerated_container_im.Snapshot.Identify.{
  header_of, identify_local_storage_type, is_remote_by_labels, writable_data_path, on_unreadable,
  identify_by_files, identify_snapshot_storage_type,
}

append-Bytes : (xs ys : List ℕ) → Bytes xs → Bytes ys → Bytes (xs ++ ys)
append-Bytes [] ys p q = q
append-Bytes (x ∷ xs) ys (b, p) q = (b, append-Bytes xs ys p q)

zeros-Bytes : (n : ℕ) → Bytes (replicate n 0)
zeros-Bytes zero = tt
zeros-Bytes (suc n) = (omega arith, zeros-Bytes n)

header_of-Bytes : (got : List ℕ) → Bytes got → Bytes (header_of got)
header_of-Bytes got p =
    take-Bytes 32 (got ++ replicate 32 0) (append-Bytes got (replicate 32 0) p (zeros-Bytes 32))

-- The first 24 bytes of what was read, filled up with zeros, are one of the two signatures.
abbrev pub Signed : List ℕ → Type 0
Signed got =
    (take 24 (header_of got) ≡ zfile_signature) ⊎ (take 24 (header_of got) ≡ lsmt_signature)

-- The type that a file's first bytes tell.
abbrev pub Tells : List ℕ → StorageType → Type 0
Tells got t = (Signed got × (t ≡ local_block)) ⊎ ((¬ Signed got) × (t ≡ normal))

type_of-Tells :
    (got : List ℕ)
    → Bytes got
    → Tells got (if is_overlaybd_file_header (header_of got) then local_block else normal)
type_of-Tells got p =
    let (sound, complete) = is_overlaybd_file_header_iff (header_of got) (header_of-Bytes got p) in
    elim (Bool-cases (is_overlaybd_file_header (header_of got))) [
      | inl e ↦ rw e (inl (sound e, refl))
      | inr e ↦ rw e (inr ((λ s. absurd (cc (complete s, e))), refl))
    ]

module _ (H : Host) (o : Snapshotter) (id : String) where
  -- What is told if no file was readable and `e` is the error of the last: nothing but by the files that
  -- are there, and by the configuration only if the last file is missing.
  abbrev pub Unreadable : Error → History → Result {0} StorageType → History → Type 0
  Unreadable not_exist h r h' =
      (h' ≡ stat (conf_path o id) ∷ h)
      × (((H.acts h (stat (conf_path o id)) ≡ none) × (r ≡ ok remote_block))
          ⊎ ((x : Error) × (H.acts h (stat (conf_path o id)) ≡ some x) × (r ≡ ok normal)))
  Unreadable e h r h' = (h' ≡ h) × (r ≡ err e)

  abbrev pub ByFiles : Error → History → Result {0} StorageType → History → Type 0
  ByFiles e h r h' =
      ((H.acts h (stat (oci_layer_path o id)) ≡ none)
        × (h' ≡ stat (oci_layer_path o id) ∷ h)
        × (r ≡ ok local_layer))
      ⊎ ((x : Error) × (H.acts h (stat (oci_layer_path o id)) ≡ some x)
          × Unreadable e (stat (oci_layer_path o id) ∷ h) r h')

  -- The files are read in their order, up to the first that is readable, whose first bytes tell the type.
  pub data Outcome : List String → History → Result {0} StorageType → History → Type 0 where
    told :
        {p : String} {ps : List String} {h : History} {t : StorageType} (got : List ℕ)
        → H.bytes h (read_header p) ≡ ok got
        → Tells got t
        → Outcome (p ∷ ps) h (ok t) (read_header p ∷ h)
    passed :
        {p q : String} {ps : List String} {h h' : History} {r : Result {0} StorageType} (e : Error)
        → H.bytes h (read_header p) ≡ err e
        → Outcome (q ∷ ps) (read_header p ∷ h) r h'
        → Outcome (p ∷ q ∷ ps) h r h'
    all_passed :
        {p : String} {h h' : History} {r : Result {0} StorageType} (e : Error)
        → H.bytes h (read_header p) ≡ err e
        → ByFiles e (read_header p ∷ h) r h'
        → Outcome (p ∷ []) h r h'

  -- Reading one file, with `k` for the case that it is not readable.
  abbrev probe : String → (Error → Exec StorageType) → Exec StorageType
  probe p k = do found ← attempt (identify_local_storage_type H p); on_result found pure k

  by_conf :
      (h : History) (x : Option Error)
      → H.acts h (stat (conf_path o id)) ≡ x
      → let (r, h') = on_unreadable H o id not_exist h in Unreadable not_exist h r h'
  unfolding on_unreadable ◌>>=◌
  by_conf h none e = rw e (refl, inl (refl, refl))
  by_conf h (some x) e = rw e (refl, inr (x, refl, refl))

  on_unreadable-Unreadable :
      (e : Error) (h : History) → let (r, h') = on_unreadable H o id e h in Unreadable e h r h'
  unfolding on_unreadable ◌>>=◌
  on_unreadable-Unreadable not_exist h = by_conf h (H.acts h (stat (conf_path o id))) refl
  on_unreadable-Unreadable e h = (refl, refl)

  by_tar :
      (e : Error) (h : History) (x : Option Error)
      → H.acts h (stat (oci_layer_path o id)) ≡ x
      → let (r, h') = identify_by_files H o id e h in ByFiles e h r h'
  unfolding identify_by_files ◌>>=◌
  by_tar e h none q = rw q (inl (refl, refl, refl))
  by_tar e h (some x) q =
      let behind = on_unreadable-Unreadable e (stat (oci_layer_path o id) ∷ h) in
      rw q (inr (x, refl, behind))

  -- What is told of a snapshot, from the history `h` on: that it is pulled on demand, by its labels and
  -- with no call, or what its files tell.
  abbrev pub Identified : Info → History → Result {0} StorageType → History → Type 0
  Identified info h r h' =
      ((is_remote_by_labels info ≡ true) × (r ≡ ok remote_block) × (h' ≡ h))
      ⊎ Outcome (magic_file_path o id ∷ sealed_file_path o id ∷ writable_data_path o id info ∷ []) h
          r h'

  module _
      (bytes : (h : History) (op : Op) (got : List ℕ) → H.bytes h op ≡ ok got → Bytes got) where
    probe-Outcome :
        (p : String) (ps : List String) (k : Error → Exec StorageType) (h : History)
        → ((e : Error)
            → H.bytes h (read_header p) ≡ err e
            → Outcome (p ∷ ps) h (k e (read_header p ∷ h)).0 (k e (read_header p ∷ h)).1)
        → Outcome (p ∷ ps) h (probe p k h).0 (probe p k h).1
    unfolding identify_local_storage_type ◌>>=◌
    probe-Outcome p ps k h next = answered (H.bytes h (read_header p)) refl
      where
        answered :
            (x : Result (List ℕ))
            → H.bytes h (read_header p) ≡ x
            → Outcome (p ∷ ps) h (probe p k h).0 (probe p k h).1
        answered (ok got) e = rw e (told got e (type_of-Tells got (bytes h _ got e)))
        answered (err x) e = rw e (next x e)

    by_files :
        (info : Info) (h : History)
        → let files = probe (magic_file_path o id) λ _.
          probe
            (sealed_file_path o id)
            λ _. probe (writable_data_path o id info) (identify_by_files H o id) in
          Outcome
            (magic_file_path o id ∷ sealed_file_path o id ∷ writable_data_path o id info ∷ [])
            h
            (files h).0
            (files h).1
    by_files info h = probe-Outcome _ _ _ h (λ e1 p1. passed e1 p1 (
        probe-Outcome _ _ _ _ (λ e2 p2.
          passed e2 p2 (probe-Outcome _ _ _ _ (λ e3 p3. all_passed e3 p3 (by_tar e3 _ _ refl))))))

    pub identify-Identified :
        (info : Info) (h : History)
        → let (r, h') = identify_snapshot_storage_type H o id info h in Identified info h r h'
    unfolding identify_snapshot_storage_type ◌>>=◌
    identify-Identified info h = elim (Bool-cases (is_remote_by_labels info)) [
      | inl e ↦ rw e (inl (refl, refl, refl))
      | inr e ↦ rw e (inr (by_files info h))
    ]
