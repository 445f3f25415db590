-- ===== src/Store/Image/Result.antt =====
-- The image that Convert (pkg/convertor/convertor.go) makes in the content store.
use accelerated_container_im.Base.{
  ℕ, suc, String, ◌≡◌, refl, ap, ◌∙◌, some, List, [], ◌∷◌, map, string_eq,
}
use accelerated_container_im.Base.Dict.{lookup}
use accelerated_container_im.Base.Int.{ℤ}
use accelerated_container_im.Base.Lists.{length, get_elem?, All, none_left, both}
use accelerated_container_im.Convertor.Registry.{docker_manifest}
use accelerated_container_im.Host.{Host}
use accelerated_container_im.Host.Registry.{Descriptor, Manifest, Image}
use accelerated_container_im.Host.Returns.{
  Returns, Returns-pure, Returns-fail, Returns-bind, Returns-bind_of, Returns-on_option,
  Returns-on_result_of, Returns-attempt, Returns-if, Returns-weaken, returns_rules,
}
use accelerated_container_im.Snapshot.Label
use accelerated_container_im.Store.{Layer, StoreConvertor}
use accelerated_container_im.Store.Image.{
  commit_image, convert_in_store, stored_config, stored_manifest, with_layers, with_diff_ids,
}
use accelerated_container_im.Store.Layers.{
  Slot, made, packing, remote_layer, send_to_content_store, keep_or_pack, store_layer, store_layers,
  wait_layers, convert_store_layers,
}
use accelerated_container_im.Store.Loader.{ContentLoader, loaded_layer, load}

-- A converted layer is named by one digest: of its blob, in its annotation and as its diff ID.
abbrev pub Named : Layer → Type 0
Named l =
    (l.diff_id ≡ l.desc.digest) × (lookup Label.blob_digest l.desc.annotations ≡ some l.desc.digest)

loaded_layer-Named : (loader : ContentLoader) (x : String × ℤ) → Named (loaded_layer loader x)
unfolding loaded_layer lookup string_eq
loaded_layer-Named loader (digest, size) = (refl, refl)

remote_layer-Named : (desc : Descriptor) → Named (remote_layer desc)
unfolding remote_layer lookup string_eq
remote_layer-Named desc = (refl, refl)

abbrev AllNamed : ℕ → List Layer → Type 0
AllNamed n layers = (length layers ≡ n) × All Named layers

abbrev SlotNamed : Slot → Type 0
SlotNamed (made l) = Named l
SlotNamed (packing id) = Unit

module _ (H : Host) where
  load-Named : (loader : ContentLoader) → Returns Named (load H loader)
  unfolding load
  load-Named loader = search (returns_rules, loaded_layer-Named) depth 20

module _ (H : Host) (c : StoreConvertor) (fs_type : String) where
  send-Named : (id : String) → Returns Named (send_to_content_store H c fs_type id)
  unfolding send_to_content_store
  send-Named id = Returns-bind _ (λ found. load-Named H _)

  keep_or_pack-Named :
      (chain_id id : String) → Returns SlotNamed (keep_or_pack H c fs_type chain_id id)
  unfolding keep_or_pack
  keep_or_pack-Named chain_id id =
      Returns-if c.remote
        (Returns-bind_of _ (send-Named id) (λ layer n. Returns-bind _ (λ _. Returns-pure _ n)))
        (Returns-pure _ tt)

  store_layer-Named :
      (tries : ℕ) (parent chain_id : String) (desc : Descriptor)
      → Returns (λ r. SlotNamed r.1) (store_layer H c fs_type tries parent chain_id desc)
  unfolding store_layer
  store_layer-Named tries parent chain_id desc = Returns-bind _ (λ found.
      Returns-on_option found
        (λ remote. Returns-bind _ (λ key. Returns-pure _ (remote_layer-Named remote)))
        (Returns-bind _
          (λ id. Returns-bind_of _ (keep_or_pack-Named chain_id id) (λ slot n. Returns-pure _ n))))

  -- One entry for each layer.
  abbrev Filled : List Descriptor → List Slot → Type 0
  Filled descs slots = (length slots ≡ length descs) × All SlotNamed slots

  store_layers-Filled :
      (tries : ℕ) (diff_ids : List String) (descs : List Descriptor) (idx : ℕ) (parent : String)
      (chain : List String)
      → Returns (Filled descs) (store_layers H c fs_type tries diff_ids descs idx parent chain)
  unfolding store_layers
  store_layers-Filled tries diff_ids [] idx parent chain = Returns-pure _ (refl, none_left)
  store_layers-Filled tries diff_ids (desc ∷ descs) idx parent chain =
      Returns-on_option (get_elem? diff_ids idx)
        (λ diff_id. Returns-bind_of _ (store_layer-Named tries parent _ desc) (λ stored n.
          Returns-bind_of _ (store_layers-Filled tries diff_ids descs _ _ _)
            (λ slots f. Returns-pure _ (ap suc f.0, both n f.1))))
        (Returns-fail _)

  wait_layers-AllNamed :
      (slots : List Slot)
      → All SlotNamed slots
      → Returns (AllNamed (length slots)) (wait_layers H c fs_type slots)
  unfolding wait_layers
  wait_layers-AllNamed [] none_left = Returns-pure _ (refl, none_left)
  wait_layers-AllNamed (made l ∷ slots) (both n ns) =
      Returns-bind_of _ (wait_layers-AllNamed slots ns)
        (λ layers f. Returns-pure _ (ap suc f.0, both n f.1))
  wait_layers-AllNamed (packing id ∷ slots) (both n ns) =
      Returns-bind_of _ (Returns-attempt _ (send-Named id)) (λ sent s.
        Returns-bind_of _ (Returns-attempt _ (wait_layers-AllNamed slots ns)) (λ rest r.
          Returns-bind_of _ (Returns-on_result_of sent s (λ l p. Returns-pure l p) Returns-fail)
            (λ layer p.
              Returns-bind_of _
                (Returns-on_result_of rest r (λ ls q. Returns-pure ls q) Returns-fail)
                (λ layers f. Returns-pure _ (ap suc f.0, both p f.1)))))

abbrev pub Annotated : Descriptor → Type 0
Annotated d = lookup Label.blob_digest d.annotations ≡ some d.digest

length-descs : (ls : List Layer) → length (map (λ l. l.desc) ls) ≡ length ls
length-descs [] = refl
length-descs (l ∷ ls) = ap suc (length-descs ls)

digests-diff_ids :
    (ls : List Layer)
    → All Named ls
    → map (λ d. d.digest) (map (λ l. l.desc) ls) ≡ map (λ l. l.diff_id) ls
digests-diff_ids [] none_left = refl
digests-diff_ids (l ∷ ls) (both (e, a) ns) = cc (e, digests-diff_ids ls ns)

descs-Annotated : (ls : List Layer) → All Named ls → All Annotated (map (λ l. l.desc) ls)
descs-Annotated [] none_left = none_left
descs-Annotated (l ∷ ls) (both (e, a) ns) = both a (descs-Annotated ls ns)

module _ (H : Host) (c : StoreConvertor) where
  -- `d` describes a Docker manifest with `n` layers.
  abbrev pub Converted : ℕ → Descriptor → Type 0
  Converted n d =
      (final : Manifest) × (image : Image) × (final.media_type ≡ docker_manifest)
      × (length final.layers ≡ n)
      × All Annotated final.layers
      × (map (λ l. l.digest) final.layers ≡ image.diff_ids)
      × ((final.config.digest, final.config.size) ≡ H.encode_image image)
      × ((d.digest, d.size) ≡ H.encode_manifest final)

  commit_image-Converted :
      (manifest : Manifest) (config : Image) (ls : List Layer) (n : ℕ)
      → AllNamed n ls
      → Returns (Converted n) (commit_image H c manifest config ls)
  unfolding commit_image stored_config stored_manifest with_layers with_diff_ids
  commit_image-Converted manifest config ls n (counted, named) = Returns-bind _ (λ _.
      Returns-bind _ (λ _. Returns-bind _ (λ _. Returns-bind _ (λ _. Returns-pure _ (
        stored_manifest H c manifest config ls,
        with_diff_ids config ls,
        refl,
        length-descs ls ∙ counted,
        descs-Annotated ls named,
        digests-diff_ids ls named,
        refl,
        refl,
      )))))

  -- The image that Convert returns is a Docker manifest with as many layers as the source has, each
  -- annotated with its own digest; its configuration is named by digest and size and has the digests of
  -- these layers, in order, as its diff IDs.
  pub convert_in_store-Converted :
      (tries : ℕ) (manifest : Manifest) (fs_type : String)
      → Returns (Converted (length manifest.layers)) (convert_in_store H c tries manifest fs_type)
  unfolding convert_in_store convert_store_layers
  convert_in_store-Converted tries manifest fs_type = Returns-bind _ (λ config.
      Returns-bind_of _
        (Returns-bind_of _ (store_layers-Filled H c fs_type tries _ manifest.layers _ _ _)
          (λ slots (counted, named).
            Returns-weaken (λ ls (k, q). (k ∙ counted, q))
              (wait_layers-AllNamed H c fs_type slots named)))
        (λ layers a. commit_image-Converted manifest config layers _ a))
