-- ===== src/Crtgen.antt =====
-- cmd/crtgen/main.go: the command that makes a certificate and its key.
-- `crypto/rsa`, `crypto/x509`, `encoding/pem`, `time` and `filepath.Join` are parameters; the files are
-- those of `Storage.Filestorage`.
pub mod Files
pub mod Servers
use urlshortner.Prelude.{
  ℕ, Str, str, store, length, ◌==◌, Exec, pure, ◌>>=◌, ◌>>◌, returned, zero, suc, Option, none,
  some, List, [], ◌∷◌, ◌++◌,
}
use urlshortner.Storage.Errors.{Error}
use urlshortner.Storage.Filestorage.{Disk, open_file}

-- The fields of `x509.Certificate` that are set.
pub record Certificate (Time : Type 0) : Type 0 where
  pub serial_number : ℕ
  pub organization : List Str
  pub country : List Str
  pub ip_addresses : List Str
  pub not_before : Time
  pub not_after : Time
  pub subject_key_id : Str
  pub ext_key_usage : List Str
  pub key_usage : Str

pub record Crypto : Type 1 where
  pub Time : Type 0
  pub PrivateKey : Type 0
  -- The clock at its two readings, and `AddDate`.
  pub now : Time
  pub now_again : Time
  pub add_date : Time → ℕ → ℕ → ℕ → Time
  pub generate_key : ℕ → PrivateKey × Option Error
  -- The template is its own parent, and the key signs its own public key.
  pub create_certificate : Certificate Time → PrivateKey → Str × Option Error
  pub marshal_key : PrivateKey → Str
  -- `pem.Encode` of a block of the type with the bytes: what it has written, and its error.
  pub pem_encode : Str → Str → Str × Option Error
  pub join : Str → Str → Str

abbrev default_path : Str
default_path = str "./ssl"

abbrev replaced : Str → Str → Str
replaced [] old = old
replaced (b ∷ s) old = b ∷ s

-- The folder, from `os.Args`.
unfoldable pub folder : List Str → Str
folder [] = default_path
folder (program ∷ []) = default_path
folder (program ∷ path ∷ args) = replaced path default_path

-- A file that is open without `O_TRUNC` is written from its start: what is longer of the old content
-- stays.
unfoldable pub written_over : Str → Str → Str
written_over [] old = old
written_over (b ∷ text) [] = b ∷ text
written_over (b ∷ text) (c ∷ old) = b ∷ written_over text old

abbrev write_file : Str → Str → Str → Exec Disk (Unit {0})
write_file path old text d =
    (returned tt, record d { files = store path (written_over text old) d.files })

module _ (x : Crypto) where
  open x use {Time, PrivateKey, generate_key, create_certificate, marshal_key, pem_encode, join}

  unfoldable pub template : Certificate Time
  template = record {
    serial_number = 1658;
    organization = str "Yandex.Praktikum" ∷ [];
    country = str "RU" ∷ [];
    ip_addresses = str "127.0.0.1" ∷ str "::1" ∷ [];
    not_before = x.now;
    not_after = x.add_date x.now_again 10 0 0;
    subject_key_id = 1 ∷ 2 ∷ 3 ∷ 4 ∷ 6 ∷ [];
    ext_key_usage = str "ExtKeyUsageClientAuth" ∷ str "ExtKeyUsageServerAuth" ∷ [];
    key_usage = str "KeyUsageDigitalSignature";
  }

  -- One of the two files: `os.OpenFile`, and then `pem.Encode`.
  file_opened : Str → Str → Str → Str × Option Error → Exec Disk (Option Error)
  file_opened path block bytes (old, some e) = pure (some e)
  file_opened path block bytes (old, none) = do
    write_file path old (pem_encode block bytes).0
    pure (pem_encode block bytes).1

  unfoldable pub pem_file : Str → Str → Str → Exec Disk (Option Error)
  unfolding file_opened
  pem_file path block bytes = open_file path >>= file_opened path block bytes

  key_file : Str → PrivateKey → Option Error → Exec Disk (Option Error)
  key_file path key (some e) = pure (some e)
  key_file path key none =
      pem_file (join path (str ".key")) (str "RSA PRIVATE KEY") (marshal_key key)

  certified : Str → PrivateKey → Str × Option Error → Exec Disk (Option Error)
  unfolding key_file
  certified path key (cert, some e) = pure (some e)
  certified path key (cert, none) =
      pem_file (join path (str ".crt")) (str "CERTIFICATE") cert >>= key_file path key

  generated : Str → PrivateKey × Option Error → Exec Disk (Option Error)
  unfolding certified
  generated path (key, some e) = pure (some e)
  generated path (key, none) = certified path key (create_certificate template key)

  -- `main`: `some e` is the end by `log.Fatal(e)`.
  unfoldable pub main : List Str → Exec Disk (Option Error)
  unfolding generated
  main os_args = generated (folder os_args) (generate_key 4096)
