-- ===== src/Server/Auth/Sessions.antt =====
-- Sessions over the in-memory storage.
use urlshortner.Prelude.{
  ◌+◌, ◌<◌, Str, ◌∷◌, IsBytes, load, store, load-store, length, ◌==◌, eq_refl, returned, ◌≡◌, ◌≢◌,
  ◌∙◌, refl, false, none, some, List, [], arith, if◌then◌else◌, Bool-cases, inl, inr,
}
use urlshortner.GoStd.Hex
use urlshortner.Storage.Filestorage.{Disk}
use urlshortner.Storage.Inmemory
use urlshortner.Storage.Inmemory.{Ims}
use urlshortner.Storage.Inmemory.Loader.{ims_loader}
use urlshortner.Server.Auth.{
  Gcm, key, nonce, seal_token, unseal_token, generate_random, open_session, load_user,
}

-- What the tokens rely on: a text that was sealed opens to itself under the same key and nonce, and
-- a sealed text is made of bytes, a tag of 16 more than the text has.
pub record IsCipher (gcm : Gcm) : Type 0 where
  pub opens : (k n t : Str) → IsBytes t → gcm.open_sealed k n (gcm.seal k n t) ≡ some t
  pub bytes : (k n t : Str) → IsBytes t → IsBytes (gcm.seal k n t)
  pub tagged : (k n t : Str) → length (gcm.seal k n t) ≡ length t + 16

-- The key of the source decodes to the 32 bytes that AES-256 wants.
pub key_decodes : (k : Str) × (Hex.decode key ≡ some k) × (length k ≡ 32)
unfolding Hex.decode
key_decodes = (_, refl, refl)

pub unseal_token-seal_token :
    (gcm : Gcm) (t : Str)
    → IsCipher gcm
    → IsBytes t
    → unseal_token gcm (seal_token gcm t).0 ≡ (t, none)
unfolding unseal_token seal_token
unseal_token-seal_token gcm t c h =
    let (k, decoded, width) = key_decodes in
    let sealed = gcm.seal k (nonce k) t in
    ground
      (arith, decoded, Hex.decode-encode sealed (c.bytes k (nonce k) t h), c.opens k (nonce k) t h)

seal_token-none : (gcm : Gcm) (t : Str) → (seal_token gcm t).1 ≡ none
unfolding seal_token
seal_token-none gcm t = let (k, decoded, width) = key_decodes in ground (arith, decoded)

nonempty-ne-nil : (s : Str) → 0 < length s → (s == []) ≡ false
unfolding ◌==◌
nonempty-ne-nil [] h = absurd (omega arith)
nonempty-ne-nil (b ∷ s) h = refl

-- No token is empty.
pub token-ne-nil : (gcm : Gcm) (t : Str) → IsCipher gcm → ((seal_token gcm t).0 == []) ≡ false
unfolding seal_token
token-ne-nil gcm t c =
    let (k, decoded, width) = key_decodes in
    let sealed = gcm.seal k (nonce k) t in
    let long : 0 < length (Hex.encode sealed) =
      omega (arith, Hex.length-encode sealed, c.tagged k (nonce k) t) in
    rw (decoded, seal_token) (nonempty-ne-nil (Hex.encode sealed) long)

module _ (gcm : Gcm) (encode_record : List Str → Str) where
  -- The sessions before and after, through the lookup of any session.
  pub load_user-result :
      (t : Str) (s : Ims) (d : Disk)
      → load_user gcm (ims_loader encode_record) t (s, d) ≡ (
        returned ((elim (load (unseal_token gcm t).0 s.sessions) [ none ↦ [] | some u ↦ u ]), none),
        (s, d),
      )
  unfolding load_user Inmemory.load_user
  load_user-result t s d = ground arith

  pub open_session-result :
      (uuid bytes : Str) (s : Ims) (d : Disk)
      → open_session gcm (ims_loader encode_record) (returned uuid) (bytes, none) (s, d) ≡ (
        returned (uuid, (seal_token gcm (Hex.encode bytes)).0, none),
        (record s { sessions = store (Hex.encode bytes) uuid s.sessions }, d),
      )
  unfolding open_session generate_random Inmemory.store_session
  open_session-result uuid bytes s d = ground (arith, seal_token-none gcm (Hex.encode bytes))

  -- With a cipher whose opening undoes its sealing, `OpenSession` hands out the new user id and a
  -- token, under which `LoadUser` finds that user from then on. Any other token that unseals to
  -- the new session's bytes stands for that user too, and one that does not for whom it stood for.
  pub session_opened :
      (uuid bytes : Str) (s : Ims) (d : Disk)
      → IsCipher gcm
      → IsBytes bytes
      → (let after =
            open_session gcm (ims_loader encode_record) (returned uuid) (bytes, none) (s, d) in
          (token : Str) × (after.0 ≡ returned (uuid, token, none))
          × (load_user gcm (ims_loader encode_record) token after.1
              ≡ (returned (uuid, none), after.1))
          × ((t : Str)
              → (load_user gcm (ims_loader encode_record) t after.1).0 ≡ (
                  if Hex.encode bytes == (unseal_token gcm t).0
                  then returned (uuid, none)
                  else (load_user gcm (ims_loader encode_record) t (s, d)).0)))
  session_opened uuid bytes s d c h =
      let opened = open_session-result uuid bytes s d in
      let token = (seal_token gcm (Hex.encode bytes)).0 in
      let m = s.sessions in
      rw opened (
        token,
        refl,
        rw
            (
              load_user-result,
              unseal_token-seal_token gcm (Hex.encode bytes) c (Hex.encode-IsBytes bytes h),
              load-store,
            )
            (rw (eq_refl (Hex.encode bytes)) refl),
        λ t. elim (Bool-cases (Hex.encode bytes == (unseal_token gcm t).0)) [
          | inl same ↦ rw (load_user-result, load_user-result, load-store) (rw same refl)
          | inr other ↦ rw (load_user-result, load_user-result, load-store) (rw other refl)
        ],
      )

  -- A token that does not unseal is no error: it stands for the user "" as long as no session is
  -- stored under "".
  pub forged_token :
      (t : Str) (s : Ims) (d : Disk)
      → (unseal_token gcm t).1 ≢ none
      → load [] s.sessions ≡ none
      → load_user gcm (ims_loader encode_record) t (s, d) ≡ (returned ([], none), (s, d))
  unfolding unseal_token
  forged_token t s d bad empty =
      let no_text : (unseal_token gcm t).0 ≡ [] = ground arith in
      load_user-result t s d ∙ rw (no_text, empty) refl
