-- ===== src/Crtgen/Files.antt =====
-- The files that cmd/crtgen leaves, and those that the servers look for.
use mathlib.Core.List.{append-nil}
use urlshortner.Prelude.{
  Str, str, load, store, load-store, differ, length, drop, ◌++◌, ◌==◌, eq_refl, returned, ◌≡◌, ◌∙◌,
  ap, sym, refl, false, Bool-cases, Option-cases, inl, inr, Option, none, some, List, [], ◌∷◌,
  if◌then◌else◌, Outcome,
}
use urlshortner.Storage.Errors.{Error}
use urlshortner.Storage.Filestorage.{Disk, open_file, or_empty}
use urlshortner.Crtgen.{
  Crypto, written_over, template, pem_file, key_file, certified, generated, folder, main,
}

-- The text, and then the rest of the old content.
written_over_lem : (text old : Str) → written_over text old ≡ text ++ drop (length text) old
unfolding written_over
written_over_lem [] old = refl
written_over_lem (b ∷ text) [] = sym (append-nil (b ∷ text))
written_over_lem (b ∷ text) (c ∷ old) = ap (λ rest. b ∷ rest) (written_over_lem text old)

module _ (x : Crypto) where
  open x use {generate_key, create_certificate, marshal_key, pem_encode, join}

  -- What one file becomes, when it can be opened.
  abbrev after : Str → Str → Str → Disk → Disk
  after path block bytes d = record d {
    files =
        store path (written_over (pem_encode block bytes).0 (or_empty (load path d.files)))
          (store path (or_empty (load path d.files)) d.files);
  }

  after-load :
      (path block bytes q : Str) (d : Disk)
      → load q (after path block bytes d).files ≡ (
          if path == q
          then some (written_over (pem_encode block bytes).0 (or_empty (load path d.files)))
          else load q d.files)
  after-load path block bytes q d = elim (Bool-cases (path == q)) [
    | inl same ↦ rw (load-store, same) refl
    | inr other ↦ rw (load-store, other, load-store, other) refl
  ]

  pem_file-opened :
      (path block bytes : Str) (d : Disk)
      → d.open_error path ≡ none
      → pem_file x path block bytes d
        ≡ (returned (pem_encode block bytes).1, after path block bytes d)
  unfolding pem_file open_file
  pem_file-opened path block bytes d opens = rw (opens, open_file) refl

  pem_file-refused :
      (path block bytes : Str) (e : Error) (d : Disk)
      → d.open_error path ≡ some e
      → pem_file x path block bytes d ≡ (returned (some e), d)
  unfolding pem_file open_file
  pem_file-refused path block bytes e d fails = rw (fails, open_file) refl

  -- It returns in any case, and changes no other file.
  Elsewhere : Str → Disk → Outcome (Option Error) × Disk → Type 0
  Elsewhere q d o =
      (err : Option Error) × (d' : Disk) × (o ≡ (returned err, d'))
      × (load q d'.files ≡ load q d.files)

  pem_file-Elsewhere :
      (path block bytes q : Str) (d : Disk)
      → (path == q) ≡ false
      → Elsewhere q d (pem_file x path block bytes d)
  unfolding Elsewhere
  pem_file-Elsewhere path block bytes q d apart = elim (Option-cases (d.open_error path)) [
    | inr (e, fails) ↦ (some e, d, pem_file-refused path block bytes e d fails, refl)
    | inl opens ↦ (
      (pem_encode block bytes).1,
      after path block bytes d,
      pem_file-opened path block bytes d opens,
      rw (after-load, apart) refl,
    )
  ]

  key_file-Elsewhere :
      (path q : Str) (key : x.PrivateKey) (err : Option Error) (d : Disk)
      → (join path (str ".key") == q) ≡ false
      → Elsewhere q d (key_file x path key err d)
  unfolding Elsewhere key_file
  key_file-Elsewhere path q key (some e) d apart = (some e, d, refl, refl)
  key_file-Elsewhere path q key none d apart = pem_file-Elsewhere _ _ _ q d apart

  certified-Elsewhere :
      (path q : Str) (key : x.PrivateKey) (cert : Str × Option Error) (d : Disk)
      → (join path (str ".crt") == q) ≡ false
      → (join path (str ".key") == q) ≡ false
      → Elsewhere q d (certified x path key cert d)
  unfolding Elsewhere certified
  certified-Elsewhere path q key (cert, some e) d no_crt no_key = (some e, d, refl, refl)
  certified-Elsewhere path q key (cert, none) d no_crt no_key =
      let (err, d', ran, same) = pem_file-Elsewhere _ (str "CERTIFICATE") cert q d no_crt in
      let (err', d'', ran', same') = key_file-Elsewhere path q key err d' no_key in
      (err', d'', rw ran ran', same' ∙ same)

  generated-Elsewhere :
      (path q : Str) (key : x.PrivateKey × Option Error) (d : Disk)
      → (join path (str ".crt") == q) ≡ false
      → (join path (str ".key") == q) ≡ false
      → Elsewhere q d (generated x path key d)
  unfolding Elsewhere generated
  generated-Elsewhere path q (key, some e) d no_crt no_key = (some e, d, refl, refl)
  generated-Elsewhere path q (key, none) d no_crt no_key =
      certified-Elsewhere path q key _ d no_crt no_key

  abbrev pub crt_path : List Str → Str
  crt_path os_args = join (folder os_args) (str ".crt")

  abbrev pub key_path : List Str → Str
  key_path os_args = join (folder os_args) (str ".key")

  -- Whatever fails, and wherever, the command changes no file but the two that it makes.
  pub main-elsewhere :
      (os_args : List Str) (q : Str) (d : Disk)
      → (crt_path os_args == q) ≡ false
      → (key_path os_args == q) ≡ false
      → (err : Option Error) × (d' : Disk) × (main x os_args d ≡ (returned err, d'))
        × (load q d'.files ≡ load q d.files)
  unfolding main Elsewhere
  main-elsewhere os_args q d no_crt no_key =
      generated-Elsewhere (folder os_args) q (generate_key 4096) d no_crt no_key

  -- The file of the path was written with the PEM text of the block: the text, and what the old
  -- content had beyond its length.
  abbrev pub HasPem : Str → Str → Str → Disk → Disk → Type 0
  HasPem path block bytes d d' =
      let text = (pem_encode block bytes).0 in
      load path d'.files ≡ some (text ++ drop (length text) (or_empty (load path d.files)))

  ending :
      (path : Str) (key : x.PrivateKey) (cert : Str) (d d₁ d₂ : Disk)
      → generate_key 4096 ≡ (key, none)
      → create_certificate (template x) key ≡ (cert, none)
      → pem_file x (join path (str ".crt")) (str "CERTIFICATE") cert d ≡ (returned none, d₁)
      → pem_file x (join path (str ".key")) (str "RSA PRIVATE KEY") (marshal_key key) d₁
        ≡ (returned none, d₂)
      → generated x path (generate_key 4096) d ≡ (returned none, d₂)
  unfolding generated certified key_file
  ending path key cert d d₁ d₂ made signed first second = rw (made, signed, first) second

  -- When the key and the certificate can be made, every file can be opened and every block written,
  -- and the two files are not the same, the command ends well: one file has the certificate of the
  -- template, signed with the key, the other the key itself. A file that was longer before keeps the
  -- rest of its old content behind the new text.
  pub main-files :
      (os_args : List Str) (key : x.PrivateKey) (cert : Str) (d : Disk)
      → generate_key 4096 ≡ (key, none)
      → create_certificate (template x) key ≡ (cert, none)
      → ((path : Str) → d.open_error path ≡ none)
      → ((block bytes : Str) → (pem_encode block bytes).1 ≡ none)
      → (crt_path os_args == key_path os_args) ≡ false
      → (d' : Disk) × (main x os_args d ≡ (returned none, d'))
        × HasPem (crt_path os_args) (str "CERTIFICATE") cert d d'
        × HasPem (key_path os_args) (str "RSA PRIVATE KEY") (marshal_key key) d d'
  unfolding main
  main-files os_args key cert d made signed opens writes apart =
      let crt = crt_path os_args in
      let key_at = key_path os_args in
      let d₁ = after crt (str "CERTIFICATE") cert d in
      let d₂ = after key_at (str "RSA PRIVATE KEY") (marshal_key key) d₁ in
      let first = pem_file-opened crt (str "CERTIFICATE") cert d (opens crt) in
      let second =
        pem_file-opened key_at (str "RSA PRIVATE KEY") (marshal_key key) d₁ (opens key_at) in
      let ran =
        ending (folder os_args) key cert d d₁ d₂ made signed
          (first ∙ ap (λ err. (returned err, d₁)) (writes _ _))
          (second ∙ ap (λ err. (returned err, d₂)) (writes _ _)) in
      (
        d₂,
        ran,
        rw (after-load, differ _ _ apart, after-load, eq_refl crt) (ap some (written_over_lem _ _)),
        rw (after-load, eq_refl key_at, after-load, apart) (ap some (written_over_lem _ _)),
      )
