-- ===== src/Lib.antt =====
-- Verification of the accelerated container image project: the containerd snapshotter that serves
-- overlaybd and TurboOCI images as block devices, and the convertor that makes such images.
--
-- The snapshotter keeps a metadata store (containerd's, in transactions), a directory per snapshot
-- and, for layers in the overlaybd format, a block device that is made through the kernel's configfs.
-- containerd calls its methods; each method works in one transaction of the store, looks at the
-- files of a layer to tell its storage type, writes a configuration for the overlaybd daemon and
-- attaches and mounts the device.
--
-- The convertor reads an image or an index of images from a registry, converts each image's layers
-- to overlaybd or TurboOCI layers and uploads them with a new manifest. Four goroutines work on each
-- layer: one asks the database for a layer that is already converted, one downloads, one builds on
-- the layer below with the overlaybd tools that the snapshotter uses too, and one uploads. A second
-- convertor, a library that ctr uses, unpacks an image's layers in snapshots of the snapshotter and packs what these
-- leave in containerd's content store.
--
-- Files:
--   Base, Base/*: lists, dictionaries, integers and texts that the parts share.
--   Host, Host/*: the calls that the program makes on the operating system and on the metadata store
--     (Op), the answers (Host, a parameter, of which a theorem assumes no more than its hypotheses
--     say), actions that extend a history of calls (Host/Exec), bounds on the calls of an action
--     (Host/Trace, Host/Success), what it returns (Host/Returns) and leaves behind (Host/Leaves, and
--     Host/Ends for its errors too), and transactions (Host/Transactions, Host/Settled,
--     Host/Discarded).
--   Tools: pkg/utils/cmd.go, the overlaybd command line tools.
--   Snapshot, Snapshot/*: pkg/snapshot. Label has pkg/label/label.go; Header and Identify the
--     storage type of a layer; Modes the labels and modes; Mounts the mounts that are returned;
--     Device/* the block devices (storage.go); Spec and Construct the backing store configuration
--     (storage.go, pkg/types/types.go); MountTable the reading of the mount table (storage.go);
--     Docker docker.go; Create createSnapshot; Prepare createMountPoint; Serve Mounts, Commit,
--     Stat, Update and Usage; Remove Remove and Cleanup; Start NewSnapshotter and what the host
--     supports (idmap_linux.go too); Mapping the user namespace mappings. Quiet/*, Transactions and
--     Queries are about the metadata store.
--   Convertor, Convertor/*: cmd/convertor/builder. Pipeline has the goroutines of one image
--     (overlaybdBuilder.Build in builder.go) as a step relation on their program counters; Registry
--     builder_utils.go; Engine builder_engine.go; Overlaybd, with Dedup and Finish, the overlaybd
--     engine (overlaybd_builder.go); TurboOci, with Convert, the TurboOCI engine
--     (turboOCI_builder.go); Graph the conversion of an image or an index, and Certificates the
--     certificates (builder.go). Their other children are about them.
--   Snapshot/Quota, Snapshot/Quota/*: pkg/snapshot/diskquota, the project quotas.
--   Store, Store/*: pkg/convertor/convertor.go, the conversion of an image in containerd's content
--     store: Loader contentLoader; Remote findRemote, pushObject and sentToRemote; Apply
--     applyOCIV1LayerInObd; Layers convertLayers; Image Convert, commitImage and IndexConvertFunc.
--   RecordTrace, RecordTrace/*: cmd/ctr/record_trace.go.
--   Attacher: cmd/overlaybd-attacher/main.go.
--   LocalDatabase, LocalDatabase/*: cmd/convertor/testingresources/local_db.go. MockRepo, MockRepo/*:
--     local_repo.go beside it.
--   Tests, Tests/*: runs and examples.
--
-- A Go function that makes calls is an action: it maps the history of calls made so far to a result
-- and a longer history. A definition has the Go function's name in snake case; a part of a long
-- function has a name of its own and is composed in the same order. Names of the Go functions
-- stand in comments. `defer` is `ensure`, or `on_error` where it tests the returned error. Errors
-- are reduced to the classes that the program tells apart. A Go `int` has 64 bits and wraps around
-- where it is computed with.
--
-- Bounds: the loops that poll take their number of tries from the source (100 tries to enable a
-- target, 500 to find a device and to mount it) and recurse on it; all other loops recurse on a
-- list, but for nested indexes and manifest lists: process and fetch_manifest take the depth of
-- nesting, and fail on deeper ones; depth 1 is enough for an index of images, and depth 0 for an image.
-- Pipeline needs no bound. Two loops of the source have no bound at all: applyOCIV1LayerInObd asks for
-- keys until one is free, and GetNextQuotaID counts and loads until an ID is; they take the number of
-- rounds as an argument (as does the loop of record-trace that names an image), about which nothing
-- is assumed, and the model tells an end of the rounds apart from the source's results where it
-- matters (Allocation).
--
-- Simplified: a panic of the source is an error here, so that the clean-up behind an error runs in it,
-- which Go's defers, as they test the returned error, do not do; what is said of errors holds of the
-- source's errors, and not of its panics. Paths are joined by "/" as they are given: the working
-- directory of a conversion is not empty, and it and the root are clean paths.
--
-- Not modelled: logs, metrics and tracing; main functions; opening the mount table (MountTable starts
-- from its lines; the methods ask the host), system calls for ID-mapped mounts, which the host
-- answers; locks of the snapshotter as far as they order requests, since each run is of one request,
-- between whose calls the host's answers may change freely. Of the convertor: the limit on images
-- built at once and the goroutines of an index (Graph converts the images of an index and the layers
-- of an image in turn, which is one of the schedules that Pipeline has for the layers), the HTTP
-- client, the SQL of the database (its answers are the host's), JSON (texts are decoded and encoded
-- by the host) and the command. Of pkg/convertor: the goroutines that pack layers run in order when
-- they are waited for, which is one of their schedules, and not at all if the loop before fails. Of
-- cmd/ctr: the commands but record-trace, and of this the forwarding of signals, the container's
-- process and the history of the new image. Of the tests' registry: the mocked resolver and pusher.
pub mod Base
pub mod Host
pub mod Tools
pub mod Snapshot
pub mod Store
pub mod RecordTrace
pub mod Attacher
pub mod LocalDatabase
pub mod MockRepo
pub mod Convertor
pub mod Tests
