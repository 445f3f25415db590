-- ===== src/Convertor/Pipeline.antt =====
-- overlaybdBuilder.Build (cmd/convertor/builder/builder.go): the goroutines that convert the layers of
-- an image, four for each layer, which meet on unbuffered channels and stop when the context of
-- their group is cancelled. A state says where each goroutine stands; an action is one step of the
-- schedule, in which the engine's answers are left open.
pub mod Family
pub mod Turns
pub mod Order
pub mod Log
pub mod Waits
pub mod Progress
pub mod Termination
pub mod Completion
use accelerated_container_im.Base.{
  ℕ, zero, suc, ◌+◌, ◌<◌, ◌≡◌, ◌⊎◌, Bool, true, false, List, [], ◌∷◌, ltb, if◌then◌else◌,
}
use Family.{put_at}

-- The deduplication goroutine. Its channel is closed when it has `checked`.
pub data Dedup : Type 0 where
  checking offering checked : Dedup

-- The download goroutine. Its channel is closed when it has returned: `downloaded`, or with an error.
pub data Download : Type 0 where
  waiting fetching_converted fetching delivering downloaded download_failed : Download

-- The convert goroutine. `got_layer` and `got_previous` stand behind a wait, before the context is
-- asked; `sending k` has `k` sends to go; it has given up if the context was cancelled.
pub data Convert : Type 0 where
  for_layer got_layer for_previous got_previous building : Convert
  sending : ℕ → Convert
  converted gave_up build_failed : Convert

-- The upload goroutine
pub data Upload : Type 0 where
  for_converted got_converted uploading uploaded upload_failed : Upload

-- What the engine did without an error: a layer was downloaded, built, or uploaded.
pub data Event : Type 0 where
  fetched built stored : ℕ → Event

pub record State : Type 0 where
  pub dedup : ℕ → Dedup
  pub download : ℕ → Download
  pub convert : ℕ → Convert
  pub upload : ℕ → Upload
  -- The context of the group is cancelled.
  pub cancelled : Bool
  -- Some goroutine has returned an error.
  pub failed : Bool
  -- the newest first
  pub log : List Event

abbrev pub start_state : State
start_state = record {
  dedup = λ _. checking;
  download = λ _. waiting;
  convert = λ _. for_layer;
  upload = λ _. for_converted;
  cancelled = false;
  failed = false;
  log = [];
}

-- The steps of the goroutines of layer `i`, and of the group.
pub data Action : Type 0 where
  -- CheckForConvertedLayer finds the layer, or does not.
  hit miss : ℕ → Action
  -- The send of a found layer meets the download goroutine, or the context is done.
  offer drop_offer : ℕ → Action
  -- The download goroutine goes on without a converted layer.
  no_offer : ℕ → Action
  converted_ok converted_bad fetch_ok fetch_bad : ℕ → Action
  deliver drop_delivery : ℕ → Action
  -- The wait for the download ends on a closed channel or a done context.
  layer_closed layer_next layer_first layer_stop : ℕ → Action
  -- The wait of layer `suc i` for layer `i` ends likewise.
  previous_closed : ℕ → Action
  previous_go previous_stop : ℕ → Action
  build_ok build_bad : ℕ → Action
  -- A send of the convert goroutine meets the next layer, or the upload, or the context is done.
  send_next send_upload drop_send send_done : ℕ → Action
  upload_closed upload_go upload_stop upload_ok upload_bad : ℕ → Action
  -- The group cancels its context after an error.
  cancel_group : Action
  -- The caller's context is done.
  interrupt : Action

abbrev pub closed_download : Download → Bool
closed_download downloaded = true
closed_download download_failed = true
closed_download _ = false

abbrev pub closed_convert : Convert → Bool
closed_convert converted = true
closed_convert gave_up = true
closed_convert build_failed = true
closed_convert _ = false

-- How often a layer is sent: to its upload, and to the next layer if there is one.
abbrev pub sends : ℕ → ℕ → ℕ
sends n i = if ltb (suc i) n then 2 else 1

abbrev pub is_sending : Convert → Bool
is_sending (sending (suc k)) = true
is_sending _ = false

abbrev pub one_less : Convert → Convert
one_less (sending (suc k)) = sending k
one_less c = c

-- When an action can be taken in a state, for `n` layers.
abbrev pub Enabled : ℕ → State → Action → Type 0
Enabled n s (hit i) = (i < n) × (s.dedup i ≡ checking)
Enabled n s (miss i) = (i < n) × (s.dedup i ≡ checking)
Enabled n s (offer i) = (i < n) × (s.dedup i ≡ offering) × (s.download i ≡ waiting)
Enabled n s (drop_offer i) = (i < n) × (s.dedup i ≡ offering) × (s.cancelled ≡ true)
Enabled n s (no_offer i) =
    (i < n) × (s.download i ≡ waiting) × ((s.dedup i ≡ checked) ⊎ (s.cancelled ≡ true))
Enabled n s (converted_ok i) = (i < n) × (s.download i ≡ fetching_converted)
Enabled n s (converted_bad i) = (i < n) × (s.download i ≡ fetching_converted)
Enabled n s (fetch_ok i) = (i < n) × (s.download i ≡ fetching)
Enabled n s (fetch_bad i) = (i < n) × (s.download i ≡ fetching)
Enabled n s (deliver i) = (i < n) × (s.download i ≡ delivering) × (s.convert i ≡ for_layer)
Enabled n s (drop_delivery i) = (i < n) × (s.download i ≡ delivering) × (s.cancelled ≡ true)
Enabled n s (layer_closed i) =
    (i < n)
    × (s.convert i ≡ for_layer)
    × ((closed_download (s.download i) ≡ true) ⊎ (s.cancelled ≡ true))
Enabled n s (layer_next i) = (i < n) × (s.convert i ≡ got_layer) × (s.cancelled ≡ false) × (0 < i)
Enabled n s (layer_first i) = (i < n) × (s.convert i ≡ got_layer) × (s.cancelled ≡ false) × (i ≡ 0)
Enabled n s (layer_stop i) = (i < n) × (s.convert i ≡ got_layer) × (s.cancelled ≡ true)
Enabled n s (previous_closed i) =
    (suc i < n)
    × (s.convert (suc i) ≡ for_previous)
    × ((closed_convert (s.convert i) ≡ true) ⊎ (s.cancelled ≡ true))
Enabled n s (previous_go i) = (i < n) × (s.convert i ≡ got_previous) × (s.cancelled ≡ false)
Enabled n s (previous_stop i) = (i < n) × (s.convert i ≡ got_previous) × (s.cancelled ≡ true)
Enabled n s (build_ok i) = (i < n) × (s.convert i ≡ building)
Enabled n s (build_bad i) = (i < n) × (s.convert i ≡ building)
Enabled n s (send_next i) =
    (suc i < n) × (is_sending (s.convert i) ≡ true) × (s.convert (suc i) ≡ for_previous)
Enabled n s (send_upload i) =
    (i < n) × (is_sending (s.convert i) ≡ true) × (s.upload i ≡ for_converted)
Enabled n s (drop_send i) = (i < n) × (is_sending (s.convert i) ≡ true) × (s.cancelled ≡ true)
Enabled n s (send_done i) = (i < n) × (s.convert i ≡ sending 0)
Enabled n s (upload_closed i) =
    (i < n)
    × (s.upload i ≡ for_converted)
    × ((closed_convert (s.convert i) ≡ true) ⊎ (s.cancelled ≡ true))
Enabled n s (upload_go i) = (i < n) × (s.upload i ≡ got_converted) × (s.cancelled ≡ false)
Enabled n s (upload_stop i) = (i < n) × (s.upload i ≡ got_converted) × (s.cancelled ≡ true)
Enabled n s (upload_ok i) = (i < n) × (s.upload i ≡ uploading)
Enabled n s (upload_bad i) = (i < n) × (s.upload i ≡ uploading)
Enabled n s cancel_group = (s.failed ≡ true) × (s.cancelled ≡ false)
Enabled n s interrupt = s.cancelled ≡ false

-- What an action changes.
abbrev pub next_state : ℕ → Action → State → State
next_state n (hit i) s = record s { dedup = put_at s.dedup i offering }
next_state n (miss i) s = record s { dedup = put_at s.dedup i checked }
next_state n (offer i) s = record s {
  dedup = put_at s.dedup i checked;
  download = put_at s.download i fetching_converted;
}
next_state n (drop_offer i) s = record s { dedup = put_at s.dedup i checked }
next_state n (no_offer i) s = record s { download = put_at s.download i fetching }
next_state n (converted_ok i) s = record s {
  download = put_at s.download i delivering;
  log = fetched i ∷ s.log;
}
next_state n (converted_bad i) s = record s { download = put_at s.download i fetching }
next_state n (fetch_ok i) s = record s {
  download = put_at s.download i delivering;
  log = fetched i ∷ s.log;
}
next_state n (fetch_bad i) s = record s {
  download = put_at s.download i download_failed;
  failed = true;
}
next_state n (deliver i) s = record s {
  download = put_at s.download i downloaded;
  convert = put_at s.convert i got_layer;
}
next_state n (drop_delivery i) s = record s { download = put_at s.download i downloaded }
next_state n (layer_closed i) s = record s { convert = put_at s.convert i got_layer }
next_state n (layer_next i) s = record s { convert = put_at s.convert i for_previous }
next_state n (layer_first i) s = record s { convert = put_at s.convert i building }
next_state n (layer_stop i) s = record s { convert = put_at s.convert i gave_up; failed = true }
next_state n (previous_closed i) s = record s { convert = put_at s.convert (suc i) got_previous }
next_state n (previous_go i) s = record s { convert = put_at s.convert i building }
next_state n (previous_stop i) s = record s { convert = put_at s.convert i gave_up; failed = true }
next_state n (build_ok i) s = record s {
  convert = put_at s.convert i (sending (sends n i));
  log = built i ∷ s.log;
}
next_state n (build_bad i) s = record s { convert = put_at s.convert i build_failed; failed = true }
next_state n (send_next i) s = record s {
  convert = put_at (put_at s.convert i (one_less (s.convert i))) (suc i) got_previous;
}
next_state n (send_upload i) s = record s {
  convert = put_at s.convert i (one_less (s.convert i));
  upload = put_at s.upload i got_converted;
}
next_state n (drop_send i) s = record s { convert = put_at s.convert i (one_less (s.convert i)) }
next_state n (send_done i) s = record s { convert = put_at s.convert i converted }
next_state n (upload_closed i) s = record s { upload = put_at s.upload i got_converted }
next_state n (upload_go i) s = record s { upload = put_at s.upload i uploading }
next_state n (upload_stop i) s = record s {
  upload = put_at s.upload i upload_failed;
  failed = true;
}
next_state n (upload_ok i) s = record s {
  upload = put_at s.upload i uploaded;
  log = stored i ∷ s.log;
}
next_state n (upload_bad i) s = record s { upload = put_at s.upload i upload_failed; failed = true }
next_state n cancel_group s = record s { cancelled = true }
next_state n interrupt s = record s { cancelled = true }

-- The states that some schedule reaches for `n` layers.
pub data Reach (n : ℕ) : State → Type 0 where
  start : Reach n start_state
  later : {s : State} (a : Action) → Reach n s → Enabled n s a → Reach n (next_state n a s)

abbrev pub returned_dedup : Dedup → Bool
returned_dedup checked = true
returned_dedup _ = false

abbrev pub returned_upload : Upload → Bool
returned_upload uploaded = true
returned_upload upload_failed = true
returned_upload _ = false

-- All goroutines have returned.
pub record Returned (n : ℕ) (s : State) : Type 0 where
  pub dedups : (i : ℕ) → i < n → returned_dedup (s.dedup i) ≡ true
  pub downloads : (i : ℕ) → i < n → closed_download (s.download i) ≡ true
  pub converts : (i : ℕ) → i < n → closed_convert (s.convert i) ≡ true
  pub uploads : (i : ℕ) → i < n → returned_upload (s.upload i) ≡ true

-- The Wait of the group returns no error, and UploadImage is called.
pub record Awaited (n : ℕ) (s : State) : Type 0 where
  pub no_error : s.failed ≡ false
  pub returned : Returned n s
  pub open returned use *
