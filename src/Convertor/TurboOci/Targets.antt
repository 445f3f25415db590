-- ===== src/Convertor/TurboOci/Targets.antt =====
-- Which blobs the TurboOCI layers of an image index (turboOCI_builder.go).
use accelerated_container_im.Base.{
  ℕ, suc, String, ◌≡◌, refl, sym, ap, ◌∙◌, Bool, true, false, Option, some, List, [], ◌∷◌, ◌++◌,
  map, arith, string_eq, if◌then◌else◌,
}
use mathlib.Core.List.{append-nil, append_assoc}
use accelerated_container_im.Base.Dict.{lookup}
use accelerated_container_im.Base.Lists.{length, get_elem?, set, length-append, get_elem?-append}
use accelerated_container_im.Convertor.Engine.{Base, plain_descriptor}
use accelerated_container_im.Convertor.Overlaybd.Finish.{start_config}
use accelerated_container_im.Base.Int.{pos}
use accelerated_container_im.Convertor.TurboOci.{
  TurboWork, new_turbo_engine, download_turbo, build_turbo, build_turbo_dir, with_target,
  with_turbo_layer,
}
use accelerated_container_im.Convertor.TurboOci.Convert.{
  upload_turbo, convert_turbo_layer, convert_turbo_layers,
}
use accelerated_container_im.Host.{Host}
use accelerated_container_im.Host.Exec.{on_option}
use accelerated_container_im.Host.Registry.{Descriptor, Manifest, Image}
use accelerated_container_im.Host.Returns.{
  Returns, Returns-bind, Returns-bind_of, Returns-pure, Returns-on_option, Returns-weaken,
  returns_rules, Returns-fail,
}
use accelerated_container_im.Host.Types.{Config, Lower}
use accelerated_container_im.Snapshot.Label

-- The digest of the blob that a TurboOCI layer says it indexes.
abbrev pub indexed_blob : Descriptor → Option String
indexed_blob d = lookup Label.turbo_oci_digest d.annotations

abbrev pub target_digests : Config → List String
target_digests c = map (λ l. l.target_digest) c.lowers

-- `w` is `v` but for which layers are gzip.
record Fetched (v w : TurboWork) : Type 0 where
  manifest_kept : w.manifest ≡ v.manifest
  lowers_kept : target_digests w.overlaybd_config ≡ target_digests v.overlaybd_config
  layers_kept : w.toci_layers ≡ v.toci_layers

-- The layer `i` is converted: `d`, which indexes the blob `target`, is what is uploaded for it.
record Converted (v w : TurboWork) (i : ℕ) (target : String) : Type 0 where
  manifest_same : w.manifest ≡ v.manifest
  lowers_more :
      target_digests w.overlaybd_config ≡ target_digests v.overlaybd_config ++ (target ∷ [])
  d : Descriptor
  layers_set : w.toci_layers ≡ set v.toci_layers i d
  d_target : indexed_blob d ≡ some target

set-append :
    (done : List Descriptor) (x y : Descriptor) (blank : List Descriptor)
    → set (done ++ (x ∷ blank)) (length done) y ≡ done ++ (y ∷ blank)
set-append [] x y blank = refl
set-append (z ∷ done) x y blank = ap {B = List Descriptor} (λ r. z ∷ r) (set-append done x y blank)

map-append :
    (xs ys : List Lower)
    → map (λ l. l.target_digest) (xs ++ ys)
      ≡ map (λ l. l.target_digest) xs ++ map (λ l. l.target_digest) ys
map-append [] ys = refl
map-append (x ∷ xs) ys = ap {B = List String} (λ r. x.target_digest ∷ r) (map-append xs ys)

start-targets : (mkfs : Bool) → target_digests (start_config mkfs) ≡ (if mkfs then [] else "" ∷ [])
start-targets true = refl
start-targets false = refl

module _ (H : Host) (b : Base) where
  download-Fetched : (w : TurboWork) (i : ℕ) → Returns (Fetched w) (download_turbo H b w i)
  unfolding download_turbo
  download-Fetched w i =
      let same : (g : List Bool) → Fetched w (record w { is_gzip = g }) =
        λ g. record { manifest_kept = refl; lowers_kept = refl; layers_kept = refl } in
      search (returns_rules, same) depth 12

  -- The state behind BuildLayer of the layer `l`.
  record Indexed (v w : TurboWork) (l : Descriptor) : Type 0 where
    manifest_kept : w.manifest ≡ v.manifest
    lowers_more :
        target_digests w.overlaybd_config ≡ target_digests v.overlaybd_config ++ (l.digest ∷ [])
    layers_kept : w.toci_layers ≡ v.toci_layers

  built-Indexed :
      (w : TurboWork) (dir : String) (l : Descriptor) (gzip : Bool)
      → Indexed w
          (record w {
            overlaybd_config =
                with_turbo_layer H b (with_target H b w.overlaybd_config dir) dir l gzip;
          })
          l
  built-Indexed w dir l gzip = record {
    manifest_kept = refl;
    lowers_more = map-append w.overlaybd_config.lowers _;
    layers_kept = refl;
  }

  build-Indexed :
      (w : TurboWork) (i : ℕ) (l : Descriptor)
      → get_elem? w.manifest.layers i ≡ some l
      → Returns (λ v. Indexed w v l) (build_turbo H b w i)
  unfolding build_turbo build_turbo_dir on_option
  build-Indexed w i l e = Returns-bind _ (λ dir. rw e (
      Returns-on_option (get_elem? w.is_gzip i)
        (λ gzip. search (returns_rules, built-Indexed w dir l gzip) depth 20) (Returns-fail _)))

  upload-Set :
      (w : TurboWork) (i : ℕ) (l : Descriptor)
      → get_elem? w.manifest.layers i ≡ some l
      → Returns
          (λ v.
            (v.manifest ≡ w.manifest)
            × (v.overlaybd_config ≡ w.overlaybd_config)
            × ((d : Descriptor) × (v.toci_layers ≡ set w.toci_layers i d)
                × (indexed_blob d ≡ some l.digest)))
          (upload_turbo H b w i)
  unfolding upload_turbo on_option lookup string_eq
  upload-Set w i l e = Returns-bind _ (λ dir. Returns-bind _ (λ found. rw e (
      Returns-on_option (get_elem? w.is_gzip i)
        (λ gzip. Returns-bind _ (λ x. Returns-pure _ (refl, refl, (_, refl, refl))))
        (Returns-fail _))))

  one-Converted :
      (w : TurboWork) (i : ℕ) (l : Descriptor)
      → get_elem? w.manifest.layers i ≡ some l
      → Returns (λ v. Converted w v i l.digest) (convert_turbo_layer H b w i)
  unfolding convert_turbo_layer
  one-Converted w i l e = Returns-bind_of _ (download-Fetched w i) (λ u f.
      let at : get_elem? u.manifest.layers i ≡ some l =
        ap (λ m. get_elem? m.layers i) f.manifest_kept ∙ e in
      Returns-bind_of _ (build-Indexed u i l at) (λ v g.
        let at' : get_elem? v.manifest.layers i ≡ some l =
          ap (λ m. get_elem? m.layers i) g.manifest_kept ∙ at in
        Returns-weaken
          (λ x (m, c, (d, s, t)). record {
            manifest_same = m ∙ g.manifest_kept ∙ f.manifest_kept;
            lowers_more =
                ap target_digests c ∙ g.lowers_more ∙ ap (λ y. y ++ (l.digest ∷ [])) f.lowers_kept;
            d = d;
            layers_set = s ∙ ap (λ y. set y i d) (g.layers_kept ∙ f.layers_kept);
            d_target = t;
          })
          (upload-Set v i l at')))

  -- The layers `ls` behind the first layers of `w`, which `done` has converted, are converted.
  record AllConverted (v w : TurboWork) (done : List Descriptor) (ls : List Descriptor)
      : Type 0 where
    lowers_all :
        target_digests w.overlaybd_config
        ≡ target_digests v.overlaybd_config ++ map (λ l. l.digest) ls
    ds : List Descriptor
    layers_all : w.toci_layers ≡ done ++ ds
    targets_all : map indexed_blob ds ≡ map (λ l. some l.digest) ls

  next-AllConverted :
      (u v w : TurboWork) (i : ℕ) (done : List Descriptor) (x l : Descriptor)
      (ls blank : List Descriptor)
      → i ≡ length done
      → u.toci_layers ≡ done ++ (x ∷ blank)
      → (c : Converted u v i l.digest) → AllConverted v w (done ++ (c.d ∷ [])) ls
      → AllConverted u w done (l ∷ ls)
  next-AllConverted u v w i done x l ls blank e t c a = record {
    lowers_all =
        a.lowers_all
        ∙ ap (λ y. y ++ map (λ l'. l'.digest) ls) c.lowers_more
        ∙ append_assoc (target_digests u.overlaybd_config) (l.digest ∷ [])
            (map (λ l'. l'.digest) ls);
    ds = c.d ∷ a.ds;
    layers_all = a.layers_all ∙ append_assoc done (c.d ∷ []) a.ds;
    targets_all = rw (c.d_target, a.targets_all) refl;
  }

  layers-AllConverted :
      (ls pre done blank : List Descriptor) (i : ℕ) (w : TurboWork)
      → i ≡ length pre
      → i ≡ length done
      → length blank ≡ length ls
      → w.manifest.layers ≡ pre ++ ls
      → w.toci_layers ≡ done ++ blank
      → Returns (λ v. AllConverted w v done ls) (convert_turbo_layers H b (length ls) w i)
  unfolding convert_turbo_layers
  layers-AllConverted [] pre done [] i w p q n m t =
      Returns-pure w
        (record { lowers_all = sym (append-nil _); ds = []; layers_all = t; targets_all = refl })
  layers-AllConverted [] pre done (x ∷ blank) i w p q n m t = absurd (omega (arith, n))
  layers-AllConverted (l ∷ ls) pre done [] i w p q n m t = absurd (omega (arith, n))
  layers-AllConverted (l ∷ ls) pre done (x ∷ blank) i w p q n m t =
      let at : get_elem? w.manifest.layers i ≡ some l = rw (m, p) (get_elem?-append pre l ls) in
      Returns-bind_of _ (one-Converted w i l at) (λ v c.
        let slot : v.toci_layers ≡ (done ++ (c.d ∷ [])) ++ blank =
          c.layers_set
          ∙ ap (λ y. set y i c.d) t
          ∙ ap (λ k. set (done ++ (x ∷ blank)) k c.d) q
          ∙ set-append done x c.d blank
          ∙ sym (append_assoc done (c.d ∷ []) blank) in
        Returns-weaken (λ y a. next-AllConverted w v y i done x l ls blank q t c a)
          (layers-AllConverted ls (pre ++ (l ∷ [])) (done ++ (c.d ∷ [])) blank (suc i) v
            (omega (arith, p, length-append pre (l ∷ [])))
            (omega (arith, q, length-append done (c.d ∷ []))) (omega (arith, n))
            (ap (λ y. y.layers) c.manifest_same ∙ m ∙ sym (append_assoc pre (l ∷ []) ls)) slot))

  length-blank : (ls : List Descriptor) (d : Descriptor) → length (map (λ l. d) ls) ≡ length ls
  length-blank [] d = refl
  length-blank (l ∷ ls) d = omega (arith, length-blank ls d)

  -- The conversion of an image to TurboOCI makes one layer for each layer of the image, in order, that is
  -- annotated with the digest of this layer's blob, and its lower layers name the same blobs in the same
  -- order, behind the base layer unless a file system is made.
  pub convert_turbo_layers-targets :
      (manifest : Manifest) (config : Image)
      → Returns
          (λ w.
            (map indexed_blob w.toci_layers ≡ map (λ l. some l.digest) manifest.layers)
            × (target_digests w.overlaybd_config
                ≡ (if b.mkfs then [] else "" ∷ []) ++ map (λ l. l.digest) manifest.layers))
          (convert_turbo_layers H b (length manifest.layers) (new_turbo_engine b manifest config) 0)
  unfolding new_turbo_engine
  convert_turbo_layers-targets manifest config =
      Returns-weaken
        (λ w a. (
          ap (map indexed_blob) a.layers_all ∙ a.targets_all,
          a.lowers_all ∙ ap (λ y. y ++ map (λ l. l.digest) manifest.layers) (start-targets b.mkfs),
        ))
        (layers-AllConverted manifest.layers [] []
          (map (λ l. plain_descriptor "" ("", pos 0)) manifest.layers) 0
          (new_turbo_engine b manifest config) refl refl (length-blank manifest.layers _) refl refl)
