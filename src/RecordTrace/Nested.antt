-- ===== src/RecordTrace/Nested.antt =====
-- What the command that records a trace (cmd/ctr/record_trace.go) releases.
use accelerated_container_im.Base.{
  ℕ, zero, suc, ◌≡◌, refl, String, Bool, true, false, Option, none, some, List, [], ◌∷◌, string_eq,
}
use accelerated_container_im.Convertor.Registry.{is_already_exists}
use accelerated_container_im.Host.{Op, History, Host, get_image}
use accelerated_container_im.Host.Exec.{
  Exec, act, ask, pure, fail, attempt, ensure, returned, continue, on_result, ◌>>=◌, ◌>>◌,
}
use accelerated_container_im.Host.Trace.{
  Emits, Emits-act, Emits-ask, Emits-attempt, Emits-on_result, Emits-pure, Emits-if, Emits-fail,
  emits_rules,
}
use accelerated_container_im.Host.Registry.{Descriptor, Manifest}
use accelerated_container_im.Host.Types.{Error, failed}
use accelerated_container_im.RecordTrace.{
  TraceOptions, create_image_with_accel_layer, name_image, publish_trace, unclassed,
  unique_object_string, await_trace, collect_trace, prepare_container, with_new_snapshot,
  in_network, recording, fill_trace, with_trace_file, check_new_image, top_fs_type,
  record_trace_action,
}
use accelerated_container_im.Store.{Layer, unique_part}
use accelerated_container_im.Store.Loader.{
  ContentFile, ContentLoader, load_file, load_files, commit_written, load,
}
use accelerated_container_im.Tools.{commit_layer}
use accelerated_container_im.RecordTrace.Resources.{
  Releases, lease, network, interface, container, task, trace_file, is_neutral, Nested, nothing,
  denied, between, Nests, Nests-neutral, Nests-bind, Nests-ensure, Nests-on_option,
}

module _ (H : Host) where
  commit_layer-Emits :
      (d t : String) (b : Bool) (os : List String) → Emits is_neutral (commit_layer H d t b os)
  unfolding commit_layer string_eq
  commit_layer-Emits d t true os = search emits_rules depth 20
  commit_layer-Emits d t false os = search emits_rules depth 20

  load_file-neutral : (w : String) (f : ContentFile) → Emits is_neutral (load_file H w f)
  unfolding load_file
  load_file-neutral w f = search (emits_rules, commit_layer-Emits) depth 20

  load_files-neutral : (w : String) (fs : List ContentFile) → Emits is_neutral (load_files H w fs)
  unfolding load_files
  load_files-neutral w [] = search emits_rules
  load_files-neutral w (f ∷ fs) =
      let ih = λ (u : Unit {0}). load_files-neutral w fs in
      search (emits_rules, load_file-neutral, ih) depth 12

  load-neutral : (l : ContentLoader) → Emits is_neutral (load H l)
  unfolding load unique_part commit_written
  load-neutral l = search (emits_rules, load_files-neutral) depth 30

  accel_image-neutral :
      (m : Manifest) (l : Layer) → Emits is_neutral (create_image_with_accel_layer H m l)
  unfolding create_image_with_accel_layer
  accel_image-neutral m l = search emits_rules depth 20

  name_image-neutral : (n : ℕ) (s : String) (d : Descriptor) → Emits is_neutral (name_image H n s d)
  unfolding name_image
  name_image-neutral zero s d = search emits_rules
  name_image-neutral (suc n) s d =
      let ih = λ (u : Unit {0}). name_image-neutral n s d in search (emits_rules, ih) depth 20

  publish_trace-neutral :
      (n : ℕ) (o : TraceOptions) (m : Manifest) (t f : String)
      → Emits is_neutral (publish_trace H n o m t f)
  unfolding publish_trace unclassed
  publish_trace-neutral n o m t f =
      search (emits_rules, load-neutral, accel_image-neutral, name_image-neutral) depth 20

  unique-neutral : Emits is_neutral (unique_object_string H)
  unfolding unique_object_string
  unique-neutral = search emits_rules depth 12

  await_trace-neutral : (n : ℕ) (f : String) → Emits is_neutral (await_trace H n f)
  unfolding await_trace
  await_trace-neutral zero f = search emits_rules depth 12
  await_trace-neutral (suc n) f =
      let ih = λ (u : Unit {0}). await_trace-neutral n f in search (emits_rules, ih) depth 20

  collect_trace-neutral : (n : ℕ) (f : String) → Emits is_neutral (collect_trace H n f)
  unfolding collect_trace
  collect_trace-neutral n f = search (emits_rules, await_trace-neutral) depth 20

  prepare_container-neutral : (i f : String) → Emits is_neutral (prepare_container H i f)
  unfolding prepare_container with_new_snapshot
  prepare_container-neutral i f = search (emits_rules, unique-neutral) depth 20

  check_new_image-neutral : (o : TraceOptions) → Emits is_neutral (check_new_image H o)
  unfolding check_new_image
  check_new_image-neutral o = search emits_rules depth 20

  top_fs_type-neutral : (ds : List Descriptor) → Emits is_neutral (top_fs_type H ds)
  unfolding top_fs_type
  top_fs_type-neutral [] = search emits_rules
  top_fs_type-neutral (d ∷ []) = search emits_rules depth 12
  top_fs_type-neutral (_ ∷ d ∷ ds) = top_fs_type-neutral (d ∷ ds)

  named :
      (op close : Op) (m : Exec (Unit {0})) (h : History) (o : Option Error)
      → Releases op close
      → H.acts h op ≡ o
      → Nests H m
      → let (r, h') = on_result (returned o) pure (λ e. fail failed) (op ∷ h) in
        Nested H h (continue r (λ _. ensure (act H close) m) h').1
  unfolding ensure act on_result pure fail
  named op close m h none r e k = between op close r e nothing (k.at (op ∷ h))
  named op close m h (some x) r e k = denied op x e nothing

  -- A resource whose error loses its class.
  unclassed-Nests :
      (op close : Op) {m : Exec (Unit {0})}
      → Releases op close
      → Nests H m
      → Nests H (unclassed H (act H op) >> ensure (act H close) m)
  unfolding unclassed ◌>>=◌ act attempt
  unclassed-Nests op close {m} r k = record { at = λ h. named op close m h (H.acts h op) r refl k }

  in_network-Nests : (b : Bool) {m : Exec (Unit {0})} → Nests H m → Nests H (in_network H b m)
  unfolding in_network
  in_network-Nests false k = k
  in_network-Nests true k = Nests-bind (Nests-neutral unique-neutral) (λ name.
      Nests-ensure _ _ (network name) (
        Nests-ensure _ _ (interface name)
          (Nests-bind (Nests-neutral (Emits-act H _ refl)) (λ _. k))))

  recording-Nests :
      (o : TraceOptions) (file : String) {m : Exec (Unit {0})}
      → Nests H m
      → Nests H (recording H o file m)
  unfolding recording
  recording-Nests o file k = Nests-bind (Nests-neutral unique-neutral) (λ _.
      Nests-ensure _ _ lease (
        in_network-Nests o.isolated (
          Nests-bind (Nests-neutral (prepare_container-neutral o.old_ref file)) (λ key.
            Nests-ensure _ _ (container key) (
              Nests-ensure _ _ (task key) (
                Nests-bind (Nests-neutral (Emits-act H _ refl)) (λ _.
                  Nests-bind (Nests-neutral (Emits-act H _ refl)) (λ _.
                    Nests-bind (Nests-neutral (Emits-act H _ refl)) (λ _.
                      Nests-bind (Nests-neutral (collect_trace-neutral o.record_time file))
                        (λ _. k))))))))))

  image_lookup-neutral :
      (ref : String) → Emits is_neutral (unclassed H (ask H.descriptor (get_image ref)))
  unfolding unclassed
  image_lookup-neutral ref = search emits_rules depth 12

  fill_trace-Nests :
      (o : TraceOptions) (file : String) {m : Exec (Unit {0})}
      → Nests H m
      → Nests H (fill_trace H o file m)
  unfolding fill_trace
  fill_trace-Nests o file k =
      Nests-on_option o.priority_list
        (λ list. Nests-bind (Nests-neutral (Emits-act H _ refl)) (λ _. k))
        (recording-Nests o file k)

  action-Nests : (rounds : ℕ) (o : TraceOptions) → Nests H (record_trace_action H rounds o)
  unfolding record_trace_action with_trace_file
  action-Nests rounds o = Nests-bind (Nests-neutral (check_new_image-neutral o)) (λ _.
      Nests-bind (Nests-neutral (image_lookup-neutral _)) (λ target.
        Nests-bind (Nests-neutral (Emits-ask _ _ refl)) (λ manifest.
          Nests-bind (Nests-neutral (top_fs_type-neutral manifest.layers)) (λ fs_type.
            Nests-bind (Nests-neutral (Emits-attempt (Emits-act H _ refl))) (λ made.
              Nests-bind
                (Nests-neutral (
                  Emits-on_result made Emits-pure
                    (λ e. Emits-if (is_already_exists e) (Emits-pure tt) (Emits-fail e))))
                (λ _. Nests-bind (Nests-neutral unique-neutral) (λ name.
                  unclassed-Nests _ _ (trace_file _) (
                    fill_trace-Nests o _
                      (Nests-neutral (publish_trace-neutral rounds o manifest fs_type _))))))))))

  -- The command that records a trace releases what it acquires (its trace file, a lease, a network
  -- namespace and the network in it, a container and its task) in the opposite order, whatever the host
  -- answers and wherever the command fails, if it does.
  pub record_trace-Nested :
      (rounds : ℕ) (o : TraceOptions) (h : History)
      → Nested H h (record_trace_action H rounds o h).1
  record_trace-Nested rounds o h = (action-Nests rounds o).at h
