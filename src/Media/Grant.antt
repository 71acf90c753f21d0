-- ===== src/Media/Grant.antt =====
-- The addresses that `createAccess` answers with, as `readSignedObject` takes them.
use text.Mathlib.Text.{◌==◌ as str_eq}
use text.Mathlib.TextPositions.{eq_refl}
use text.Mathlib.TextEquality.{eq_iff}
use hsk_3_0_app.Base.{
  ℕ, ◌+◌, ◌≡◌, refl, subst, ◌⊎◌, inl, inr, Bool, true, false, not, ◌||◌, some, List, String, arith,
  length, ltb, leb, if◌then◌else◌, ==_refl,
}
use hsk_3_0_app.Auth.{Role}
use hsk_3_0_app.Media.{
  Runtime, Config, Media, canonical_media_content_resource, create_media_access_signature,
  verify_media_access_signature, media_content_access_method, is_stored, find_media, text_of,
  is_hex_digest, signed_with,
}
use hsk_3_0_app.Media.Access.{
  Url, granted, signed_url, access_to, create_access, ttl_seconds, StoredObject, Storage, stored,
  content, invalid_grant, has_size, is_intact, read_row, read_signed_object,
}

access_to-granted :
    (runtime : Runtime) (config : Config) (provider : String) (media : Media) (role : Role)
    (media_id now : ℕ) (url : Url)
    → access_to runtime config provider media role media_id now ≡ granted url
    → (is_stored provider media ≡ true)
      × (url ≡ signed_url runtime config media media_id (now + ttl_seconds config role))
unfolding access_to
access_to-granted runtime config provider media role media_id now url e = ground arith

guarded :
    (expires_at now : ℕ) {a b c d signed : Bool}
    → a ≡ true
    → b ≡ true
    → c ≡ true
    → d ≡ true
    → signed ≡ true
    → (if leb expires_at now || not a || not b || not c || not d then false else signed)
      ≡ ltb now expires_at
guarded expires_at now ea eb ec ed es = rw (ea, eb, ec, ed, es) (ground arith)

either-right : (a : Bool) {b : Bool} → b ≡ true → (a || b) ≡ true
either-right true e = refl
either-right false e = e

-- Under a secret that is current or the previous one, a signature made with it is verified as long as
-- its time is not over.
module _ (runtime : Runtime)
    (same : (bytes : List ℕ) → runtime.timing_safe_equal bytes bytes ≡ true)
    (hex : (secret text : String) → is_hex_digest (runtime.create_hmac secret text) ≡ true) where
  signed_with-same : (bytes : List ℕ) → signed_with runtime bytes bytes ≡ true
  unfolding signed_with
  signed_with-same bytes = rw (==_refl (length bytes), same bytes) refl

  is_hex-signature :
      (secret method resource : String) (expires_at : ℕ) (checksum : String)
      → is_hex_digest
          (create_media_access_signature runtime secret method resource expires_at checksum)
        ≡ true
  unfolding create_media_access_signature
  is_hex-signature secret method resource expires_at checksum = hex secret _

  verify-signed :
      (config later_config : Config) (media_id expires_at : ℕ) (checksum : String) (now : ℕ)
      → (later_config.signing_secret ≡ config.signing_secret)
        ⊎ (later_config.previous_signing_secret ≡ some config.signing_secret)
      → is_hex_digest checksum ≡ true
      → verify_media_access_signature runtime later_config media_id expires_at checksum
          (create_media_access_signature runtime config.signing_secret media_content_access_method
            (canonical_media_content_resource runtime media_id)
            expires_at
            checksum)
          media_content_access_method
          (canonical_media_content_resource runtime media_id)
          now
        ≡ ltb now expires_at
  unfolding verify_media_access_signature
  verify-signed config later_config media_id expires_at checksum now known digest =
      let resource = canonical_media_content_resource runtime media_id in
      let signature =
        create_media_access_signature runtime config.signing_secret media_content_access_method
          resource expires_at checksum in
      let own = signed_with-same (runtime.from_hex signature) in
      let written =
        is_hex-signature config.signing_secret media_content_access_method resource expires_at
          checksum in
      guarded expires_at now (eq_refl media_content_access_method) (eq_refl resource) digest written
        (elim known [
          | inl current ↦ rw (current, own) refl
          | inr previous ↦ rw previous (either-right _ own)
        ])

-- The digest of a row whose content the storage has answered whole.
is_hex-checksum :
    (runtime : Runtime) (media : Media) (object : StoredObject)
    → ((body : List ℕ) → is_hex_digest (runtime.create_hash body) ≡ true)
    → is_intact runtime media object ≡ true
    → is_hex_digest (text_of media.checksum) ≡ true
unfolding is_intact
is_hex-checksum runtime media object hex e =
    let same : str_eq (runtime.create_hash object.body) (text_of media.checksum) ≡ true =
      ground arith in
    subst (λ t. is_hex_digest t ≡ true)
      ((eq_iff (runtime.create_hash object.body) (text_of media.checksum)).0 same) (hex object.body)

read_row-intact :
    (runtime : Runtime) (config : Config) (storage : Storage) (media : Media)
    (object : StoredObject) (media_id expires_at : ℕ) (signature method path : String) (now : ℕ)
    → is_stored storage.provider media ≡ true
    → has_size media.size ≡ true
    → storage.get_private_object (text_of media.storage_key) ≡ stored object
    → is_intact runtime media object ≡ true
    → verify_media_access_signature runtime config media_id expires_at
        (text_of media.checksum)
        signature
        method
        path
        now
      ≡ ltb now expires_at
    → read_row runtime config storage media media_id expires_at signature method path now
      ≡ (if ltb now expires_at then content object else invalid_grant)
unfolding read_row
read_row-intact runtime config storage media object media_id expires_at signature method path now
      kept sized got whole verified =
    rw (kept, sized, verified, got, whole) (ground arith)

-- An address that `createAccess` answers with carries the time until which it is valid, 60 seconds
-- later for a learner, and up to then, and not from then on, `readSignedObject` answers it with the
-- content, also after a change of the secret that keeps the old one as the previous secret: where the
-- row stays the same, has a size that is not 0, and the storage answers with the object whole.
pub create_access-read_signed_object :
    (runtime : Runtime) (config later_config : Config) (storage : Storage)
    (rows later_rows : List Media) (media : Media) (object : StoredObject) (role : Role)
    (media_id now later : ℕ) (url : Url)
    → ((bytes : List ℕ) → runtime.timing_safe_equal bytes bytes ≡ true)
    → ((secret text : String) → is_hex_digest (runtime.create_hmac secret text) ≡ true)
    → ((body : List ℕ) → is_hex_digest (runtime.create_hash body) ≡ true)
    → (later_config.signing_secret ≡ config.signing_secret)
      ⊎ (later_config.previous_signing_secret ≡ some config.signing_secret)
    → find_media rows media_id ≡ some media
    → find_media later_rows media_id ≡ some media
    → has_size media.size ≡ true
    → storage.get_private_object (text_of media.storage_key) ≡ stored object
    → is_intact runtime media object ≡ true
    → create_access runtime config storage.provider rows role media_id now ≡ granted url
    → (url.expires ≡ now + ttl_seconds config role)
      × (read_signed_object runtime later_config storage later_rows media_id url.expires
            url.signature media_content_access_method url.path later
          ≡ (if ltb later url.expires then content object else invalid_grant))
unfolding create_access read_signed_object signed_url
create_access-read_signed_object runtime config later_config storage rows later_rows media object
      role media_id now later url same hex_hmac hex_hash known found later_found sized got whole e =
    let (kept, signed) =
      access_to-granted runtime config storage.provider media role media_id now url
        (rw (create_access, found) at e) in
    rw (read_signed_object, later_found, signed)
      (
        refl,
        read_row-intact runtime later_config storage media object media_id
            (now + ttl_seconds config role) _ media_content_access_method _ later kept sized got
            whole
            (verify-signed runtime same hex_hmac config later_config media_id
              (now + ttl_seconds config role) (text_of media.checksum) later known
              (is_hex-checksum runtime media object hex_hash whole)),
      )
