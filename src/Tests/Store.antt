-- ===== src/Tests/Store.antt =====
-- Runs of the conversion in the content store (pkg/convertor), of the quota IDs
-- (pkg/snapshot/diskquota), and of the database in memory, and examples of the theorems
-- about them on concrete inputs.
use accelerated_container_im.Base.{
  ◌≡◌, refl, inr, String, none, some, [], ◌∷◌, true, false, string_eq, nat_eq, arith,
}
use accelerated_container_im.Base.Int.{pos}
use accelerated_container_im.Base.Lists.{none_left, both}
use accelerated_container_im.Base.Text.{decimal, split, split_n, atoi, digits_from, text_slice}
use accelerated_container_im.Base.Dict.{lookup}
use accelerated_container_im.Convertor.Registry.{docker_manifest, oci_manifest, is_manifest_type}
use accelerated_container_im.Host.{Host}
use accelerated_container_im.Host.Leaves.{Leaves, Anywhere}
use accelerated_container_im.Host.Registry.{Descriptor, Manifest, LayerEntry, ManifestEntry}
use accelerated_container_im.Host.Returns.{Returns}
use accelerated_container_im.Host.Exec.{◌>>=◌, pure}
use accelerated_container_im.Host.Types.{ok, err, not_found}
use accelerated_container_im.LocalDatabase.{
  LayerKey, LocalDb, delete_manifest_record, remove_ranging, is_manifest,
}
use accelerated_container_im.LocalDatabase.Refinement.{
  create_one, look_up, delete_one, answers, on_database, on_table, table_of, answers-on_table,
}
use accelerated_container_im.Snapshot.Quota.{
  QuotaDriver, safe_convert_to_uint32, get_next_quota_id, unfinished, allocated, collect_ids,
  listed_id, next_from, following_id,
}
use accelerated_container_im.Snapshot.Quota.Exhausted.{get_next_quota_id-unfinished}
use accelerated_container_im.Snapshot.Quota.Fresh.{Fresh, get_next_quota_id-Fresh}
use accelerated_container_im.Snapshot.Quota.Printed.{safe_convert_to_uint32-decimal}
use accelerated_container_im.Convertor.Certificates.{client_pairs}
use accelerated_container_im.Convertor.Certificates.Pairs.{lacks, client_pairs-as_option}
use accelerated_container_im.MockRepo.{
  Contents, RepoStore, mock_fetch, mock_push, mock_exists, all_there, referred, stored_blob_in,
}
use accelerated_container_im.MockRepo.Sound.{Sound, Complete, mock_push-Sound}
use accelerated_container_im.RecordTrace.{TraceOptions, record_trace_action}
use accelerated_container_im.RecordTrace.Nested.{record_trace-Nested}
use accelerated_container_im.RecordTrace.Resources.{Nested}
use accelerated_container_im.Store.{StoreConvertor, unique_part}
use accelerated_container_im.Store.Apply.{
  apply_layer, prepare_unique, with_rollback, apply_in, commit_or_keep,
}
use accelerated_container_im.Store.Layers.{
  convert_store_layers, store_layers, store_layer, find_converted, keep_or_pack, wait_layers,
  send_to_content_store,
}
use accelerated_container_im.Store.Loader.{load, load_files, load_file, commit_written}
use accelerated_container_im.Tools.{commit_layer}
use accelerated_container_im.Store.Image.{convert_in_store, commit_image}
use accelerated_container_im.Store.Image.Result.{Converted, convert_in_store-Converted}
use accelerated_container_im.Store.Layers.Snapshots.{Tidy}
use accelerated_container_im.Store.Layers.Tidy.{convert_in_store-Tidies}
use accelerated_container_im.Store.Remote.{find_remote}
use accelerated_container_im.Store.Remote.Reuse.{InRegistry, find_remote-InRegistry}
use accelerated_container_im.Tests.{calm, calm_layer}

abbrev local : StoreConvertor
local = record {
  remote = false;
  ref = "registry/image:1";
  host = "registry";
  repo = "image";
  zfile = record { algorithm = "lz4"; block_size = pos 4096 };
  vsize = pos 64;
}

abbrev shared : StoreConvertor
shared = record local { remote = true }

abbrev one_layer : Manifest
one_layer = record {
  media_type = "";
  config = calm_layer;
  layers = calm_layer ∷ [];
  artifact_type = "";
  subject = none;
}

convert_in_store-Converted_example :
    Returns (Converted calm local 1) (convert_in_store calm local 3 one_layer "ext4")
convert_in_store-Converted_example = convert_in_store-Converted calm local 3 one_layer "ext4"

convert_in_store-Tidies_example :
    Tidy calm [] (convert_in_store calm shared 3 one_layer "ext4" []).1
convert_in_store-Tidies_example = convert_in_store-Tidies calm shared 3 one_layer "ext4" []

find_remote-InRegistry_example :
    Leaves Anywhere (InRegistry calm shared "sha256:chain") (find_remote calm shared "sha256:chain")
find_remote-InRegistry_example = find_remote-InRegistry calm shared "sha256:chain"

abbrev some_ids : QuotaDriver
some_ids = record { quota_ids = 16777217 ∷ []; last_id = 16777217 }

get_next_quota_id-Fresh_example :
    Leaves (λ h. h ≡ []) (Fresh calm some_ids []) (get_next_quota_id calm 2 some_ids)
get_next_quota_id-Fresh_example =
    get_next_quota_id-Fresh calm some_ids [] 2
      (inr (both (omega arith, omega arith) none_left, omega arith, omega arith))

-- repquota lists one project, which has the largest ID.
abbrev full_host : Host
full_host = record calm { text = λ h op. ok "#200000000 -- 4 0 0" }

get_next_quota_id-unfinished_example :
    (get_next_quota_id full_host 9 (record { quota_ids = []; last_id = 0 }) []).0 ≡ ok unfinished
unfolding collect_ids listed_id split split_n safe_convert_to_uint32 atoi digits_from text_slice
    string_eq nat_eq
get_next_quota_id-unfinished_example =
    get_next_quota_id-unfinished full_host "#200000000 -- 4 0 0" (λ h. refl)
      (
        (both (omega arith, omega arith) none_left, omega arith, omega arith),
        omega arith,
        omega arith,
      )
      9 (record { quota_ids = []; last_id = 0 }) [] refl

safe_convert_to_uint32-decimal_example : safe_convert_to_uint32 (decimal 16777217) ≡ some 16777217
safe_convert_to_uint32-decimal_example = safe_convert_to_uint32-decimal 16777217 (omega arith)

abbrev row : String → LayerEntry
row digest = record {
  converted_digest = digest;
  data_size = pos 5;
  repository = "image";
  chain_id = "sha256:chain";
  host = "registry";
}

abbrev row_key : LayerKey
row_key = record { in_host = "registry"; in_repository = "image"; of_chain = "sha256:chain" }

abbrev empty_db : LocalDb
empty_db = record { layer_records = []; manifest_records = [] }

answers-on_table_example :
    answers on_database empty_db
      (create_one (row "a") ∷ create_one (row "b") ∷ delete_one row_key ∷ look_up row_key ∷ [])
    ≡ answers on_table
        (table_of empty_db)
        (create_one (row "a") ∷ create_one (row "b") ∷ delete_one row_key ∷ look_up row_key ∷ [])
answers-on_table_example =
    answers-on_table
      (create_one (row "a") ∷ create_one (row "b") ∷ delete_one row_key ∷ look_up row_key ∷ [])
      empty_db

abbrev manifest_row : ManifestEntry
manifest_row = record {
  converted_digest = "sha256:b";
  original_digest = "sha256:a";
  data_size = pos 5;
  repository = "image";
  host = "registry";
  media_type = "";
}

-- A manifest that was entered twice cannot be deleted: the loop panics.
deletes_twice :
    delete_manifest_record
      (record {
        at_host = "registry";
        at_repository = "image";
        with_type = "";
        of_original = "sha256:a";
      })
      (record empty_db { manifest_records = manifest_row ∷ manifest_row ∷ [] })
    ≡ none
unfolding delete_manifest_record remove_ranging is_manifest string_eq
deletes_twice = refl

-- A layer is unpacked, committed and packed in the content store.
converts_in_store :
    (convert_in_store calm local 3 one_layer "ext4" []).0
    ≡ ok (record {
      media_type = docker_manifest;
      digest = "sha256:manifest";
      size = pos 5;
      annotations = [];
      platform = none;
    })
unfolding convert_in_store convert_store_layers store_layers store_layer find_converted apply_layer
    prepare_unique unique_part with_rollback apply_in commit_or_keep keep_or_pack wait_layers
    send_to_content_store load load_files load_file commit_written commit_layer commit_image ◌>>=◌
    string_eq lookup
converts_in_store = refl

-- A project has the largest number of 32 bits, and the count wraps around: the ID 0 is given.
wraps_around :
    (get_next_quota_id calm 1 (record { quota_ids = 4294967295 ∷ []; last_id = 4294967295 }) []).0
    ≡ ok (allocated 0 (record { quota_ids = 0 ∷ 4294967295 ∷ []; last_id = 0 }))
unfolding get_next_quota_id next_from following_id nat_eq pure
wraps_around = refl

abbrev tracing : TraceOptions
tracing = record {
  old_ref = "registry/image:1";
  new_ref = "registry/image:1_trace";
  record_time = 2;
  priority_list = none;
  working_dir = "/tmp/ctr-record-trace/";
  isolated = true;
}

record_trace-Nested_example : Nested calm [] (record_trace_action calm 3 tracing []).1
record_trace-Nested_example = record_trace-Nested calm 3 tracing []

client_pairs-as_option_example :
    client_pairs ("a.cert:a.key" ∷ []) []
    ≡ (ok (record { cert_file = "a.cert"; key_file = "a.key" } ∷ []), [])
unfolding lacks nat_eq
client_pairs-as_option_example =
    client_pairs-as_option (record { cert_file = "a.cert"; key_file = "a.key" } ∷ []) []
      (both (refl, refl) none_left)

-- A content is its own digest, and there is no directory.
abbrev plain_contents : Contents
plain_contents = record {
  digest_of = λ s. s;
  size_of = λ s. pos 1;
  manifest_of = λ s. one_layer;
  index_of = λ s. record { media_type = ""; manifests = []; artifact_type = ""; subject = none };
  store_opens = false;
  store_resolve = λ t. err not_found;
  store_fetch = λ d. err not_found;
  store_exists = λ d. err not_found;
}

abbrev layer_only : RepoStore
layer_only = record {
  has_path = false;
  in_memory_only = true;
  ignores_layers = false;
  blobs = ("sha256:layer", "sha256:layer") ∷ [];
  tags = [];
}

abbrev pushed_desc : Descriptor
pushed_desc = record calm_layer { media_type = oci_manifest; digest = "m" }

layer_only-Sound : Sound plain_contents layer_only
unfolding lookup
layer_only-Sound = (λ digest blob e. ground (arith, e), λ tag digest e. absurd (ground (arith, e)))

mock_push-Sound_example :
    Sound plain_contents (stored_blob_in plain_contents layer_only pushed_desc "1" "m")
    × (mock_fetch plain_contents
          (stored_blob_in plain_contents layer_only pushed_desc "1" "m")
          pushed_desc
        ≡ ok "m")
    × (plain_contents.digest_of "m" ≡ "m")
    × Complete plain_contents layer_only pushed_desc "m"
unfolding mock_push mock_exists all_there referred is_manifest_type string_eq lookup
mock_push-Sound_example =
    mock_push-Sound plain_contents layer_only
      (stored_blob_in plain_contents layer_only pushed_desc "1" "m") pushed_desc "1" "m"
      layer_only-Sound refl
