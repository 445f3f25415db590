-- ===== src/Store/Layers/Tidy.antt =====
-- What the conversion of an image in the content store (pkg/convertor/convertor.go) leaves in the
-- snapshotter.
use accelerated_container_im.Base.{ℕ, ◌<>◌, refl, inl, inr, String, List, [], ◌∷◌}
use accelerated_container_im.Base.Dict.{Dict}
use accelerated_container_im.Base.Lists.{get_elem?}
use accelerated_container_im.Host.{History, Host, sn_commit}
use accelerated_container_im.Host.Ends.{
  Ends, EndsAt, Ends-pure, Ends-fail, Ends-if_of, Ends-ask, Ends-ignore-act, Ends-bind, Ends-try,
}
use accelerated_container_im.Host.Leaves.{Failed}
use accelerated_container_im.Host.Registry.{Descriptor, Manifest}
use accelerated_container_im.Host.Trace.{Emits-pure, Emits-fail, Emits-ask}
use accelerated_container_im.Host.Types.{Error, Result, ok, err}
use accelerated_container_im.Convertor.Registry.{is_already_exists}
use accelerated_container_im.Store.{StoreConvertor, conv_name}
use accelerated_container_im.Store.Image.{convert_in_store}
use accelerated_container_im.Store.Layers.{
  prepare_remote, store_layer, store_layers, convert_store_layers,
}
use accelerated_container_im.Store.Layers.Plain.{
  find_converted-Emits, keep_or_pack-Emits, wait_layers-Emits, commit_image-Emits,
}
use accelerated_container_im.Store.Apply.{apply_layer}
use accelerated_container_im.Store.Apply.Rollback.{Held, Applied, Withdrawn, apply_layer-Applied}
use accelerated_container_im.Store.Layers.Snapshots.{
  Tidy, Pending, begun, declined, committed, removed, taken, not_committed, NoneHeld-Tidy,
  Held-Pending, Tidies, Tidies-plain, Tidies-bind, Tidies-on_option,
}

module _ (H : Host) (start : History) where
  Failed-Pending :
      (parent : String) (labels : Dict String) (from : History) (key id : String) (e : Error)
      (h : History)
      → Tidy H start from
      → Failed H (Held H parent labels from key) (sn_commit id key labels) e h
      → Pending H start key h
  Failed-Pending parent labels from key id e h t (before, last, x, k) =
      rw last (not_committed id key labels e x (Held-Pending H start parent labels from key t k))

  Applied-Tidy :
      (parent : String) (labels : Dict String) (from : History) (id : String) (h : History)
      → Tidy H start from
      → Applied H parent labels from id h
      → Tidy H start h
  Applied-Tidy parent labels from id h t (key, inl (before, e, x, k)) =
      rw e (committed id key labels x (Held-Pending H start parent labels from key t k))
  Applied-Tidy parent labels from id h t (key, inr (now, last, found)) =
      rw last (removed key (Failed-Pending parent labels from key id found.0 now t found.2))

  Withdrawn-Tidy :
      (parent : String) (labels : Dict String) (from : History) (e : Error) (h : History)
      → Tidy H start from
      → Withdrawn H parent labels from e h
      → Tidy H start h
  Withdrawn-Tidy parent labels from e h t (inl n) = NoneHeld-Tidy H start parent labels from t n
  Withdrawn-Tidy parent labels from e h t (inr (key, (now, last, k))) = rw last (
      removed key (elim k [
        | inl held ↦ Held-Pending H start parent labels from key t held
        | inr (id, r, f) ↦ Failed-Pending parent labels from key id r now t f
      ]))

  EndsAt-Tidy :
      (parent : String) (labels : Dict String) (from : History) (r : Result String) (h : History)
      → Tidy H start from
      → EndsAt (Applied H parent labels from) (Withdrawn H parent labels from) r h
      → Tidy H start h
  EndsAt-Tidy parent labels from (ok id) h t k = Applied-Tidy parent labels from id h t k
  EndsAt-Tidy parent labels from (err e) h t k = Withdrawn-Tidy parent labels from e h t k

  apply_layer-Tidies :
      (tries : ℕ) (parent : String) (desc : Descriptor) (labels : Dict String)
      → Tidies H start (apply_layer H tries parent desc labels)
  apply_layer-Tidies tries parent desc labels = record {
    at = λ h t.
        EndsAt-Tidy parent labels h (apply_layer H tries parent desc labels h).0
          (apply_layer H tries parent desc labels h).1 t
          (apply_layer-Applied H tries parent desc labels h);
  }

  either-Tidy {ℓ} :
      {A : Type ℓ} (r : Result A) (h : History)
      → EndsAt (λ _. Tidy H start) (λ _. Tidy H start) r h
      → Tidy H start h
  either-Tidy (ok a) h t = t
  either-Tidy (err e) h t = t

  -- A layer of the registry: a snapshot that Prepare makes all the same is removed.
  prepare_remote-Tidies :
      (c : StoreConvertor) (fs_type parent chain_id : String) (desc : Descriptor)
      → Tidies H start (prepare_remote H c fs_type parent chain_id desc)
  unfolding prepare_remote
  prepare_remote-Tidies c fs_type parent chain_id desc = record {
    at = λ h t. either-Tidy _ _ (ending.at h t);
  }
    where
      key : String
      key = "prepare-" <> conv_name chain_id

      ending :
          Ends
            (Tidy H start)
            (λ _. Tidy H start)
            (λ _. Tidy H start)
            (prepare_remote H c fs_type parent chain_id desc)
      ending =
          Ends-try {Q = λ mounts. Pending H start key} {S = λ e. Tidy H start} _
            (Ends-ask _ _ (λ h mounts t x. taken key parent _ mounts x t)
              (λ h e t x. declined key parent _ e x t))
            (λ mounts.
              Ends-bind {Q = λ u. Tidy H start} _ (Ends-ignore-act H _ (λ h p. removed key p))
                (λ u. Ends-fail _ (λ h t. t)))
            (λ e.
              Ends-if_of (is_already_exists e) (λ y. Ends-pure _ (λ h t. t))
                (λ n. Ends-fail _ (λ h t. t)))

  store_layer-Tidies :
      (c : StoreConvertor) (fs_type : String) (tries : ℕ) (parent chain_id : String)
      (desc : Descriptor)
      → Tidies H start (store_layer H c fs_type tries parent chain_id desc)
  unfolding store_layer
  store_layer-Tidies c fs_type tries parent chain_id desc =
      Tidies-bind (Tidies-plain (find_converted-Emits H c fs_type chain_id)) (λ found.
        Tidies-on_option found
          (λ remote.
            Tidies-bind (prepare_remote-Tidies c fs_type parent chain_id remote)
              (λ key. Tidies-plain (Emits-pure _)))
          (Tidies-bind (apply_layer-Tidies tries parent desc _) (λ id.
            Tidies-bind (Tidies-plain (keep_or_pack-Emits H c fs_type chain_id id))
              (λ slot. Tidies-plain (Emits-pure _)))))

  store_layers-Tidies :
      (c : StoreConvertor) (fs_type : String) (tries : ℕ) (diff_ids : List String)
      (descs : List Descriptor) (idx : ℕ) (parent : String) (chain : List String)
      → Tidies H start (store_layers H c fs_type tries diff_ids descs idx parent chain)
  unfolding store_layers
  store_layers-Tidies c fs_type tries diff_ids [] idx parent chain = Tidies-plain (Emits-pure _)
  store_layers-Tidies c fs_type tries diff_ids (desc ∷ descs) idx parent chain =
      Tidies-on_option (get_elem? diff_ids idx)
        (λ diff_id. Tidies-bind (store_layer-Tidies c fs_type tries parent _ desc) (λ stored.
          Tidies-bind (store_layers-Tidies c fs_type tries diff_ids descs _ _ _)
            (λ slots. Tidies-plain (Emits-pure _))))
        (Tidies-plain (Emits-fail _))

module _ (H : Host) (c : StoreConvertor) where
  -- Whatever the host answers, and whether Convert succeeds or fails: every snapshot that it prepares is
  -- committed, or its removal is called, before the next call that makes, commits or removes a snapshot,
  -- and before it returns.
  pub convert_in_store-Tidies :
      (tries : ℕ) (manifest : Manifest) (fs_type : String) (start : History)
      → Tidy H start (convert_in_store H c tries manifest fs_type start).1
  unfolding convert_in_store convert_store_layers
  convert_in_store-Tidies tries manifest fs_type start = tidies.at start begun
    where
      tidies : Tidies H start (convert_in_store H c tries manifest fs_type)
      tidies = Tidies-bind (Tidies-plain (Emits-ask _ _ refl)) (λ config.
          Tidies-bind
            (Tidies-bind (store_layers-Tidies H start c fs_type tries _ _ _ _ _)
              (λ slots. Tidies-plain (wait_layers-Emits H c fs_type slots)))
            (λ layers. Tidies-plain (commit_image-Emits H c manifest config layers)))
