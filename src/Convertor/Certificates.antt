-- ===== src/Convertor/Certificates.antt =====
-- The certificates of the image convertor's HTTP client (loadTLSConfig in builder.go).
pub mod Pairs
use accelerated_container_im.Base.{
  ℕ, String, ◌<>◌, Bool, true, false, ◌==◌, string_eq, List, [], ◌∷◌, ◌++◌, if◌then◌else◌,
}
use accelerated_container_im.Base.Text.{split, split_n, has_suffix, trim_suffix}
use accelerated_container_im.Convertor.Graph.{Options, build}
use accelerated_container_im.Host.{Host, read_dir, read_file, system_certs, load_key_pair}
use accelerated_container_im.Host.Exec.{Exec, act, ask, pure, fail, attempt, on_result, ◌>>=◌, ◌>>◌}
use accelerated_container_im.Host.Types.{Error, failed, not_exist, forbidden}

-- CertOption
pub record CertOption : Type 0 where
  pub cert_dirs : List String
  pub root_cas : List String
  pub client_certs : List String
  pub insecure_tls : Bool

-- clientCertPair: a certificate's file and a key's.
pub record CertPair : Type 0 where
  pub cert_file : String
  pub key_file : String

-- What the client is configured with: the files of the root certificates besides the system's, and the
-- pairs of the client.
pub record TlsConfig : Type 0 where
  pub ca_files : List String
  pub pairs : List CertPair
  pub skips_verification : Bool

-- The pair that an option `--client-cert` names.
abbrev pair_of : List String → Exec CertPair
pair_of (cert ∷ key ∷ []) = pure (record { cert_file = cert; key_file = key })
pair_of _ = fail failed

unfoldable pub client_pairs : List String → Exec (List CertPair)
unfolding split
client_pairs [] = pure []
client_pairs (cert ∷ certs) = do
  pair ← pair_of (split b':' cert)
  pairs ← client_pairs certs
  pure (pair ∷ pairs)

-- The files of a directory: certificates of authorities end in .crt, those of clients in .cert.
unfoldable pub cas_in : String → List String → List String
unfolding has_suffix
cas_in dir [] = []
cas_in dir (file ∷ files) =
    let rest = cas_in dir files in
    if has_suffix file ".crt" then (dir <> "/" <> file) ∷ rest else rest

unfoldable pub pairs_in : String → List String → List CertPair
unfolding has_suffix trim_suffix
pairs_in dir [] = []
pairs_in dir (file ∷ files) =
    let rest = pairs_in dir files in
    if has_suffix file ".cert"
    then record {
      cert_file = dir <> "/" <> file;
      key_file = dir <> "/" <> (trim_suffix file ".cert" <> ".key");
    }
      ∷ rest
    else rest

-- A directory that is not there, or may not be read, counts as empty.
abbrev is_passed_over : Error → Bool
is_passed_over not_exist = true
is_passed_over forbidden = true
is_passed_over _ = false

module _ (H : Host) where
  unfoldable pub cert_files : String → Exec (List String)
  cert_files dir = do
    files ← attempt (ask H.names (read_dir dir))
    on_result files pure (λ e. if is_passed_over e then pure [] else fail e)

  -- The loop over the directories.
  unfoldable pub with_cert_dirs : List String → TlsConfig → Exec TlsConfig
  unfolding cas_in pairs_in
  with_cert_dirs [] c = pure c
  with_cert_dirs (dir ∷ dirs) c = do
    files ← cert_files dir
    with_cert_dirs dirs (record c {
      ca_files = c.ca_files ++ cas_in dir files;
      pairs = c.pairs ++ pairs_in dir files;
    })

  unfoldable pub read_cas : List String → Exec (Unit {0})
  read_cas [] = pure tt
  read_cas (file ∷ files) = do ask H.text (read_file file); read_cas files

  unfoldable pub load_pairs : List CertPair → Exec (Unit {0})
  load_pairs [] = pure tt
  load_pairs (pair ∷ rest) = do act H (load_key_pair pair.cert_file pair.key_file); load_pairs rest

  -- loadTLSConfig, on a system where the pool of the system's certificates can be asked for
  unfoldable pub load_tls_config : CertOption → Exec TlsConfig
  load_tls_config opt = do
    given ← client_pairs opt.client_certs
    c ←
        with_cert_dirs opt.cert_dirs
          (record { ca_files = opt.root_cas; pairs = given; skips_verification = opt.insecure_tls })
    act H system_certs
    read_cas c.ca_files
    load_pairs c.pairs
    pure c

-- The user and the password of the option Auth, or nothing without a user.
abbrev credentials : List String → String × String
credentials (user ∷ password ∷ []) = if user == "" then ("", "") else (user, password)
credentials _ = ("", "")

unfoldable pub auth_creds : String → String × String
unfolding split_n string_eq
auth_creds auth = credentials (split_n b':' 2 auth)

module _ (H : Host) where
  -- Build: the HTTP client and the resolver that are made of the certificates are the host's.
  unfoldable pub build_with_certificates : CertOption → Options → ℕ → Exec (Unit {0})
  build_with_certificates certs o depth = do load_tls_config H certs; build H o depth
