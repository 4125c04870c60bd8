-- ===== src/Storage/Inmemory/Files.antt =====
-- What reaches the storage file.
use urlshortner.Prelude.{
  Option, ℕ, ◌+◌, ◌≤◌, ◌<◌, Str, SyncMap, load, store, load-store, length, length-append, All,
  eq_refl, returned, ◌≡◌, ◌∙◌, ap, sym, refl, none, some, List, [], ◌∷◌, ◌++◌, ◌⊎◌, inl, inr,
  Bool-cases, arith, ltb,
}
use mathlib.Core.List.{append_assoc, append-nil}
use urlshortner.Storage.Errors.{Error}
use urlshortner.Storage.Filestorage.{
  FileStorage, Disk, Writer, open_file, new_writer, write_byte, write_text, buffer_size, or_empty,
}
use urlshortner.Storage.Inmemory.{
  Value, ims_storer, file_storer, Ims, write_entries, flush, record_of,
}
use urlshortner.Storage.Inmemory.Invariant.{IsOwn, IsWf}

-- What was sent through the writer: the file, then the buffer.
abbrev sent : Writer → Str
sent w = w.written ++ w.buffered

-- The file takes every text to its end.
abbrev pub TakesAll : (Str → Str → Str × Option Error) → Type 0
TakesAll append = (text more : Str) → append text more ≡ (text ++ more, none)

module _ (append : Str → Str → Str × Option Error) (takes : TakesAll append) where
  write_byte_lem :
      (b : ℕ) (w : Writer)
      → w.err ≡ none
      → length w.buffered ≤ buffer_size
      → ((write_byte append b w).err ≡ none)
        × (sent (write_byte append b w) ≡ sent w ++ b ∷ [])
        × (length (write_byte append b w).buffered ≤ buffer_size)
        × (0 < length (write_byte append b w).buffered)
        × (length w.buffered < buffer_size
            → ((write_byte append b w).written ≡ w.written)
              × (length (write_byte append b w).buffered ≡ length w.buffered + 1))
  unfolding write_byte
  write_byte_lem b w fine h = elim (Bool-cases (ltb (length w.buffered) buffer_size)) [
    | inl room ↦
        let grown = length-append w.buffered (b ∷ []) in
        rw (fine, room)
          (
            refl,
            sym (append_assoc w.written w.buffered (b ∷ [])),
            ground (arith, grown),
            omega (arith, grown),
            λ less. (refl, omega (arith, grown)),
          )
    | inr full ↦
        rw (fine, full)
          (rw (takes w.written w.buffered)
            (refl, refl, omega arith, omega arith, λ less. absurd (ground arith)))
  ]

  -- The text goes on after what was sent; no more than the buffer's size waits, and something does
  -- once anything was sent; nothing reaches the file while it all fits.
  write_text_lem :
      (s : Str) (w : Writer)
      → w.err ≡ none
      → length w.buffered ≤ buffer_size
      → ((write_text append s w).err ≡ none)
        × (sent (write_text append s w) ≡ sent w ++ s)
        × (length (write_text append s w).buffered ≤ buffer_size)
        × (0 < length w.buffered + length s → 0 < length (write_text append s w).buffered)
        × (length w.buffered + length s ≤ buffer_size → (write_text append s w).written ≡ w.written)
  unfolding write_text
  write_text_lem [] w fine h = (fine, sym (append-nil _), h, λ e. omega arith, λ e. refl)
  write_text_lem (b ∷ s) w fine h =
      let (fine', went, within, waits, fits) = write_byte_lem b w fine h in
      let (fine'', went', within', waits', fits') =
        write_text_lem s (write_byte append b w) fine' within in
      (
        fine'',
        went' ∙ ap (λ t. t ++ s) went ∙ append_assoc (sent w) (b ∷ []) s,
        within',
        λ e. waits' (omega arith),
        λ e. let (same, one) = fits (omega arith) in fits' (omega arith) ∙ same,
      )

  write_text-append :
      (s t : Str) (w : Writer)
      → write_text append (s ++ t) w ≡ write_text append t (write_text append s w)
  unfolding write_text
  write_text-append [] t w = refl
  write_text-append (b ∷ s) t w = write_text-append s t (write_byte append b w)

-- The content of a file; one that is not there has none.
abbrev pub content : Str → Disk → Str
content path d = or_empty (load path d.files)

module _ (encode_record : List Str → Str) where
  -- The text of all the entries.
  pub all_records : SyncMap Value → Str
  all_records [] = []
  all_records ((id, ims_storer r) ∷ m) = encode_record (record_of id r) ++ all_records m
  all_records ((id, file_storer r) ∷ m) = all_records m

  write_entries_lem :
      (append : Str → Str → Str × Option Error) (m : SyncMap Value) (w : Writer)
      → TakesAll append
      → w.err ≡ none
      → length w.buffered ≤ buffer_size
      → All IsOwn m
      → write_entries encode_record append m w
        ≡ (returned none, write_text append (all_records m) w)
  unfolding write_entries all_records write_text
  write_entries_lem append [] w takes fine h o = refl
  write_entries_lem append ((id, file_storer r) ∷ m) w takes fine h o = absurd o.0
  write_entries_lem append ((id, ims_storer r) ∷ m) w takes fine h o =
      let text = encode_record (record_of id r) in
      let (fine', went, within, waits, fits) = write_text_lem append takes text w fine h in
      rw (write_text-append append takes text (all_records m) w) (
        ground (
          arith,
          fine',
          write_entries_lem append m (write_text append text w) takes fine' within o.1,
        ))

  -- The walk returns the error that the writer has met, if it has met one.
  write_entries-err :
      (append : Str → Str → Str × Option Error) (m : SyncMap Value) (w : Writer)
      → w.err ≡ none
      → All IsOwn m
      → (write_entries encode_record append m w).0
        ≡ returned (write_entries encode_record append m w).1.err
  unfolding write_entries
  write_entries-err append [] w fine o = rw fine refl
  write_entries-err append ((id, file_storer r) ∷ m) w fine o = absurd o.0
  write_entries-err append ((id, ims_storer r) ∷ m) w fine o =
      let w' = write_text append (encode_record (record_of id r)) w in
      ground (arith, λ (fine' : w'.err ≡ none). write_entries-err append m w' fine' o.1)

  flush_runs :
      (s : Ims) (d : Disk) (f : FileStorage)
      → IsWf s
      → s.file_manager ≡ some f
      → d.open_error f.file_path ≡ none
      → TakesAll (d.append f.file_path)
      → flush encode_record (s, d) ≡ (
        returned none,
        (
          s,
          record d {
            files =
                store f.file_path
                  (write_text
                    (d.append f.file_path)
                    (all_records s.entries)
                    (new_writer (content f.file_path d))).written
                  (store f.file_path (content f.file_path d) d.files);
          },
        ),
      )
  unfolding flush open_file
  flush_runs s d f w managed opens takes =
      let written =
        write_entries_lem (d.append f.file_path) s.entries (new_writer (content f.file_path d))
          takes refl (omega arith) w.own in
      ground (arith, written)

  -- On a well-formed storage with a file that opens and takes every write to its end, `Flush`
  -- reports success, and yet the file
  -- never holds all that was to be written. What it holds afterwards is what it held before
  -- followed by the entries' records, but for a last part of at most 4096 bytes, which is lost;
  -- the lost part is never empty when there was anything to write, and it is all of the records
  -- when they fit in the buffer.
  pub flush_incomplete :
      (s : Ims) (d : Disk) (f : FileStorage)
      → IsWf s
      → s.file_manager ≡ some f
      → d.open_error f.file_path ≡ none
      → TakesAll (d.append f.file_path)
      → (kept : Str) × (lost : Str) × ((flush encode_record (s, d)).0 ≡ returned none)
        × (load f.file_path (flush encode_record (s, d)).1.1.files ≡ some kept)
        × (kept ++ lost ≡ content f.file_path d ++ all_records s.entries)
        × (length lost ≤ 4096)
        × ((length (all_records s.entries) ≡ 0) ⊎ 0 < length lost)
        × (4096 < length (all_records s.entries) ⊎ kept ≡ content f.file_path d)
  flush_incomplete s d f w managed opens takes =
      let ran = flush_runs s d f w managed opens takes in
      let start = new_writer (content f.file_path d) in
      let append = d.append f.file_path in
      let ended = write_text append (all_records s.entries) start in
      let (fine, went, within, waits, fits) =
        write_text_lem append takes (all_records s.entries) start refl (omega arith) in
      (
        ended.written,
        ended.buffered,
        ap (λ r. r.0) ran,
        rw ran (rw load-store (rw (eq_refl f.file_path) refl)),
        went ∙ ap (λ t. t ++ all_records s.entries) (append-nil _),
        within,
        elim (Bool-cases (ltb 0 (length (all_records s.entries)))) [
          | inl some_text ↦ inr (waits (ground arith))
          | inr no_text ↦ inl (ground arith)
        ],
        elim (Bool-cases (ltb 4096 (length (all_records s.entries)))) [
          | inl more ↦ inl (ground arith)
          | inr small ↦ inr (fits (ground arith))
        ],
      )
