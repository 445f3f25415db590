-- ===== src/Snapshot/Construct/Lowers.antt =====
-- ConstructOverlayBDSpec (storage.go): the layers that the configuration of a snapshot lists, against
-- those of its parent's.
use accelerated_container_im.Base.{
  ◌≡◌, refl, ◌⊎◌, inl, inr, String, ◌<>◌, Bool, true, false, none, some, [], ◌∷◌, ◌++◌, map, ◌==◌,
  string_eq, if◌then◌else◌,
}
use accelerated_container_im.Base.Int.{ℤ}
use accelerated_container_im.Base.Text.{atoi, dir_name}
use accelerated_container_im.Host.{History, Host, stat}
use accelerated_container_im.Host.Exec.{◌>>=◌}
use accelerated_container_im.Host.Returns.{
  Returns, Returns-pure, Returns-fail, Returns-if_of, Returns-bind, Returns-bind_of, Returns-weaken,
  Returns-on_option, Returns-on_option_of, Returns-on_result_of, Returns-attempt, Returns-act,
  returns_rules,
}
use accelerated_container_im.Host.Types.{Config, Info, Lower}
use accelerated_container_im.Snapshot.{
  Snapshotter, StorageType, unknown, normal, local_block, remote_block, local_layer, upper_path,
  oci_layer_path, magic_file_path,
}
use accelerated_container_im.Snapshot.Label
use accelerated_container_im.Snapshot.Modes.{label_text, check_turbo_oci, is_turbo_oci}
use accelerated_container_im.Snapshot.Construct.{
  image_ref, remote_lower, remote_config, local_config, converted_config, writable_config,
  config_by_type, ext4_fallback,
}

-- The file of a layer as the fallback to ext4 names it: in its directory.
abbrev pub on_ext4 : Lower → Lower
on_ext4 l = record l { file = dir_name l.file <> "ext4.fs.meta" }

module _ (H : Host) (o : Snapshotter) (id : String) (info : Info) where
  -- The host answered that the file is there.
  abbrev pub Present : String → Type 0
  Present path = (before : History) × (H.acts before (stat path) ≡ none)

  -- `l` stands for the blob that the labels name, of a TurboOCI layer or of another one.
  abbrev pub Pulled : Lower → Type 0
  Pulled l =
      (l.dir ≡ upper_path o id)
      × (((digest : String) × (media_type : String) × (check_turbo_oci info
              ≡ some (digest, media_type))
            × (l.target_digest ≡ digest))
          ⊎ ((check_turbo_oci info ≡ none)
              × (l.digest ≡ label_text info Label.blob_digest)
              × (atoi (label_text info Label.blob_size) ≡ some l.size)))

  -- `l` stands for the layer.tar of the snapshot and the metadata of its file system.
  abbrev pub Converted : Lower → Type 0
  Converted l = (l.target_file ≡ oci_layer_path o id) × (l.file ≡ magic_file_path o id)

  -- `l` stands for the layer that the snapshot's directory holds.
  abbrev pub Local : Lower → Type 0
  Local l =
      (Present (oci_layer_path o id) × Converted l) ⊎ ((l.dir ≡ upper_path o id) × (l.file ≡ ""))

  -- `c'` has the layers of `c` and one more on top, for which `P` holds, and `c`'s writable layer.
  abbrev pub Stacked : (Lower → Type 0) → Config → Config → Type 0
  Stacked P c c' = ((l : Lower) × (c'.lowers ≡ c.lowers ++ (l ∷ [])) × P l) × (c'.upper ≡ c.upper)

  abbrev pub Kept : Config → Config → Type 0
  Kept c c' = (c'.lowers ≡ c.lowers) × (c'.repo_blob_url ≡ c.repo_blob_url)

  -- What the layer of the given type adds to the configuration of its parent.
  abbrev pub Adds : StorageType → Config → Config → Type 0
  Adds remote_block c c' = Stacked Pulled c c'
  Adds local_block c c' = Stacked Local c c'
  Adds local_layer c c' = Stacked Converted c c'
  Adds normal c c' = Kept c c'
  Adds unknown c c' = Kept c c'

  remote_lower-Pulled :
      (c : Config) (size : ℤ)
      → atoi (label_text info Label.blob_size) ≡ some size
      → Returns Pulled (remote_lower H o id info c size)
  unfolding remote_lower
  remote_lower-Pulled c size e =
      Returns-on_option_of (check_turbo_oci info)
        (λ (digest, media_type) t.
          Returns-bind _ (λ file. Returns-pure _ (refl, inl (digest, media_type, t, refl))))
        (λ t. Returns-pure _ (refl, inr (t, refl, e)))

  remote-Adds :
      (w : Bool) (c : Config) → Returns (Adds remote_block c) (remote_config H o id info w c)
  unfolding remote_config
  remote-Adds w c =
      Returns-if_of w (λ _. Returns-fail _)
        (λ _.
          Returns-on_option_of (atoi (label_text info Label.blob_size))
            (λ size e.
              Returns-on_option (image_ref info)
                (λ ref. Returns-bind _ (λ url.
                  Returns-bind_of _ (remote_lower-Pulled _ size e)
                    (λ l p. Returns-pure _ ((l, refl, p), refl))))
                (Returns-fail _))
            (λ _. Returns-fail _))

  local-Adds : (w : Bool) (c : Config) → Returns (Adds local_block c) (local_config H o id info w c)
  unfolding local_config
  local-Adds w c =
      Returns-if_of w (λ _. Returns-fail _)
        (λ _.
          Returns-bind_of _ (Returns-attempt _ (Returns-act H (stat (oci_layer_path o id))))
            (λ layer p.
              Returns-on_result_of layer p
                (λ _ there. Returns-pure _ ((_, refl, inl (there, (refl, refl))), refl))
                (λ _. Returns-pure _ ((_, refl, inr (refl, refl)), refl))))

  converted-Adds : (c : Config) → Returns (Adds local_layer c) (converted_config H o id info c)
  unfolding converted_config
  converted-Adds c =
      Returns-bind _ (λ _. Returns-bind _ (λ _. Returns-pure _ ((_, refl, (refl, refl)), refl)))

  writable-Adds : (w : Bool) (c : Config) → Returns (Kept c) (writable_config H o id info w c)
  unfolding writable_config
  writable-Adds w c = search returns_rules depth 20

  by_type-Adds :
      (t : StorageType) (w : Bool) (c : Config)
      → Returns (Adds t c) (config_by_type H o id info t w c)
  unfolding config_by_type
  by_type-Adds remote_block w c = remote-Adds w c
  by_type-Adds local_block w c = local-Adds w c
  by_type-Adds local_layer w c = converted-Adds c
  by_type-Adds normal w c = writable-Adds w c
  by_type-Adds unknown w c = writable-Adds w c

  -- `c'` is `c`, or, in a TurboOCI layer and if the fallback file is there, `c` with all its layers' files
  -- on ext4.
  abbrev pub FallenBack : Config → Config → Type 0
  FallenBack c c' =
      (c' ≡ c)
      ⊎ ((is_turbo_oci info ≡ true)
          × Present (o.root <> "/.TurboOCI_ext4")
          × (c' ≡ record c { lowers = map on_ext4 c.lowers }))

  fallen_back :
      (b : Bool) (c : Config)
      → is_turbo_oci info ≡ true
      → Present (o.root <> "/.TurboOCI_ext4")
      → FallenBack c (if b then c else record c { lowers = map on_ext4 c.lowers })
  fallen_back true c t p = inl refl
  fallen_back false c t p = inr (t, p, refl)

  ext4_fallback-FallenBack : (c : Config) → Returns (FallenBack c) (ext4_fallback H o id info c)
  unfolding ext4_fallback
  ext4_fallback-FallenBack c =
      Returns-if_of (is_turbo_oci info)
        (λ t.
          Returns-bind_of _ (Returns-attempt _ (Returns-act H (stat (o.root <> "/.TurboOCI_ext4"))))
            (λ there p.
              Returns-on_result_of there p
                (λ _ q. Returns-bind _ (λ file. Returns-pure _ (fallen_back (file == "") c t q)))
                (λ _. Returns-pure _ (inl refl))))
        (λ _. Returns-pure _ (inl refl))

  -- The configuration that is made of the parent's, `c`, for a layer of the type `t`: of a pulled, local
  -- or just converted layer it lists the parent's layers in order and on top of them exactly one, which
  -- stands for the blob that the labels name, for the layer in the snapshot's directory, or for its
  -- layer.tar with the file system's metadata; of a writable layer it lists the parent's layers. Only in a
  -- TurboOCI layer, and if the fallback file is there, the files of all the layers listed, the parent's
  -- too, are then replaced by those on ext4 in the same directories, and nothing else.
  pub config-Adds :
      (t : StorageType) (w : Bool) (c : Config)
      → Returns
          (λ c'. (config : Config) × Adds t c config × FallenBack config c')
          (do config ← config_by_type H o id info t w c; ext4_fallback H o id info config)
  config-Adds t w c =
      Returns-bind_of _ (by_type-Adds t w c)
        (λ config a. Returns-weaken (λ c' f. (config, a, f)) (ext4_fallback-FallenBack config))
