-- ===== src/Snapshot/Device/Attempts.antt =====
-- The polling loops of storage.go: what they return, and how often they try.
use accelerated_container_im.Base.{
  ℕ, zero, suc, ◌+◌, ◌*◌, ◌≤◌, ◌<◌, ◌≡◌, refl, String, Option, none, some, ◌∷◌, arith,
}
use accelerated_container_im.Base.Lists.{length}
use accelerated_container_im.Host.{Op, History, Host, sleep}
use accelerated_container_im.Host.Exec.{Exec, act, pure, ignore, on_result, ◌>>=◌, ◌>>◌, returned}
use accelerated_container_im.Host.Types.{Error, Result, ok, err}
use accelerated_container_im.Snapshot.Device.Attach.{wait_for_block_device}
use accelerated_container_im.Snapshot.Device.Mount.{retry_mount}

-- What `tries` mounts came to: the last call is the mount, which succeeded, or all were used.
abbrev pub Mounted {ℓ} : {A : Type ℓ} → Host → ℕ → Op → History → Result A → History → Type 0
Mounted H tries op h (ok a) h' =
    ((before : History) × (h' ≡ op ∷ before) × (H.acts before op ≡ none))
    × (length h' ≤ 2 * tries + length h)
Mounted H tries op h (err e) h' = length h' ≡ 2 * tries + length h

module _ (H : Host) (op : Op) where
  Mounted-more :
      (tries : ℕ) (h : History) (r : Result {0} (Unit {0})) (h' : History)
      → Mounted H tries op (sleep 10 ∷ op ∷ h) r h'
      → Mounted H (suc tries) op h r h'
  Mounted-more tries h (ok a) h' (found, b) = (found, omega arith)
  Mounted-more tries h (err e) h' p = omega arith

  -- The loop behind one answer `o` of the mount.
  abbrev after_mount : ℕ → Option Error → Exec (Unit {0})
  after_mount tries o =
      on_result (returned o) pure λ e. do ignore (act H (sleep 10)); retry_mount H tries op e

  after_mount-Mounted :
      (tries : ℕ) (h : History) (o : Option Error)
      → H.acts h op ≡ o
      → ((e : Error)
          → Mounted H tries op
              (sleep 10 ∷ op ∷ h)
              (retry_mount H tries op e (sleep 10 ∷ op ∷ h)).0
              (retry_mount H tries op e (sleep 10 ∷ op ∷ h)).1)
      → Mounted H (suc tries) op h (after_mount tries o (op ∷ h)).0 (after_mount tries o (op ∷ h)).1
  unfolding ◌>>=◌
  after_mount-Mounted tries h none p ih = ((h, refl, p), omega arith)
  after_mount-Mounted tries h (some e) p ih = Mounted-more tries h _ _ (ih e)

  -- The loop that mounts a device returns success only if its last call is the mount and succeeded,
  -- within `tries` mounts; it fails only if it made all of its `tries` mounts, each with a pause.
  pub retry_mount-Mounted :
      (tries : ℕ) (last : Error) (h : History)
      → Mounted H tries op h (retry_mount H tries op last h).0 (retry_mount H tries op last h).1
  unfolding retry_mount ◌>>=◌
  retry_mount-Mounted zero last h = omega arith
  retry_mount-Mounted (suc tries) last h =
      after_mount-Mounted tries h (H.acts h op) refl
        (λ e. retry_mount-Mounted tries e (sleep 10 ∷ op ∷ h))

-- `k` calls of `find` in a row failed, each followed by a pause: they led from the history `h` to `h'`,
-- and the error `last` to `last'`, that of the last of them.
pub data Failing (find : String → Exec String) (number : String)
    : ℕ → Error → History → Error → History → Type 0 where
  untried : {last : Error} {h : History} → Failing find number 0 last h last h
  failed_once :
      {k : ℕ} {last e last' : Error} {h h1 h' : History}
      → find number h ≡ (err e, h1)
      → Failing find number k e (sleep 10 ∷ h1) last' h'
      → Failing find number (suc k) last h last' h'

-- What `attempts` polls for a device came to: fewer than `attempts` failed and the next one found the
-- device, or all of them failed.
abbrev pub Found :
    (String → Exec String) → String → ℕ → Error → History → Result {0} String → History → Type 0
Found find number attempts last h (ok device) h' =
    (k : ℕ) × (e : Error) × (before : History) × Failing find number k last h e before
    × (find number before ≡ (ok device, h'))
    × (k < attempts)
Found find number attempts last h (err e) h' = Failing find number attempts last h e h'

module _ (H : Host) (find : String → Exec String) (number : String) where
  abbrev after_find : ℕ → Result {0} String → Exec String
  after_find attempts r =
      on_result r pure
        λ e. do ignore (act H (sleep 10)); wait_for_block_device H find attempts e number

  Found-more :
      (attempts : ℕ) (last e : Error) (h h1 : History) (r : Result {0} String) (h' : History)
      → find number h ≡ (err e, h1)
      → Found find number attempts e (sleep 10 ∷ h1) r h'
      → Found find number (suc attempts) last h r h'
  Found-more attempts last e h h1 (ok d) h' p (k, e', before, f, q, l) =
      (suc k, e', before, failed_once p f, q, omega (arith, l))
  Found-more attempts last e h h1 (err x) h' p f = failed_once p f

  after_find-Found :
      (attempts : ℕ) (last : Error) (h : History) (r : Result {0} String) (h1 : History)
      → find number h ≡ (r, h1)
      → ((e : Error) (g : History)
          → let (r', g') = wait_for_block_device H find attempts e number g in
            Found find number attempts e g r' g')
      → let (r', g') = after_find attempts r h1 in Found find number (suc attempts) last h r' g'
  unfolding ◌>>=◌
  after_find-Found attempts last h (ok d) h1 p ih = (0, last, h, untried, p, omega arith)
  after_find-Found attempts last h (err e) h1 p ih =
      Found-more attempts last e h h1 _ _ p (ih e (sleep 10 ∷ h1))

  -- Polling for a device in `attempts` attempts returns the device of the first poll that finds one, if
  -- fewer than `attempts` polls failed before it, and pauses behind each of those; it returns an error
  -- only if `attempts` polls failed in a row, each with a pause behind it, and the error is the last
  -- one's (the one given, if there are no attempts).
  pub wait_for_block_device-Found :
      (attempts : ℕ) (last : Error) (h : History)
      → let (r, h') = wait_for_block_device H find attempts last number h in
        Found find number attempts last h r h'
  unfolding wait_for_block_device ◌>>=◌
  wait_for_block_device-Found zero last h = untried
  wait_for_block_device-Found (suc attempts) last h =
      let (r, h1) = find number h in
      after_find-Found attempts last h r h1 refl (wait_for_block_device-Found attempts)
