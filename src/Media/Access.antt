-- ===== src/Media/Access.antt =====
-- The two operations of media-access.service.ts.
use text.Mathlib.Text.{◌==◌ as str_eq}
use hsk_3_0_app.Base.{
  ℕ, zero, suc, ◌+◌, Bool, true, false, ◌&&◌, ◌||◌, not, Option, none, some, List, String, ◌==◌,
  if◌then◌else◌, any, length, is_nat,
}
use hsk_3_0_app.Auth.{Role, admin, user}
use hsk_3_0_app.Media.{
  Runtime, Config, Media, canonical_media_content_resource, create_media_access_signature,
  verify_media_access_signature, media_content_access_method, is_stored, is_public_exercise,
  find_media, text_of,
}

-- The parts of the address that `createAccess` answers with.
pub record Url : Type 0 where
  pub path : String
  pub expires : ℕ
  pub signature : String

-- What `createAccess` ends with.
pub data Access : Type 0 where
  granted : Url → Access
  not_available not_allowed : Access

abbrev is_admin : Role → Bool
is_admin admin = true
is_admin user = false

-- `LEARNER_MEDIA_ACCESS_TTL_SECONDS`
abbrev pub learner_media_access_ttl_seconds : ℕ
learner_media_access_ttl_seconds = 60

abbrev pub ttl_seconds : Config → Role → ℕ
ttl_seconds config admin = config.admin_access_ttl_seconds
ttl_seconds config user = learner_media_access_ttl_seconds

-- The address of a row's content, up to a time.
unfoldable pub signed_url : Runtime → Config → Media → (media_id expires_at : ℕ) → Url
signed_url runtime config media media_id expires_at =
    let resource = canonical_media_content_resource runtime media_id in
    record {
      path = resource;
      expires = expires_at;
      signature =
          create_media_access_signature runtime config.signing_secret media_content_access_method
            resource expires_at (text_of media.checksum);
    }

-- `createAccess`, of a row that the query finds.
unfoldable pub access_to :
    Runtime → Config → (provider : String) → Media → Role → (media_id now : ℕ) → Access
access_to runtime config provider media role media_id now =
    if not (is_stored provider media)
    then not_available
    else if not (is_admin role) && not (any is_public_exercise media.lesson_exercises)
    then not_allowed
    else granted (signed_url runtime config media media_id (now + ttl_seconds config role))

-- `createAccess`
unfoldable pub create_access :
    Runtime → Config → (provider : String) → List Media → Role → (media_id now : ℕ) → Access
unfolding access_to
create_access runtime config provider rows role media_id now = elim (find_media rows media_id) [
  | none ↦ not_available
  | some media ↦ access_to runtime config provider media role media_id now
]

-- `StoredObject`
pub record StoredObject : Type 0 where
  pub body : List ℕ
  pub content_type : String
  pub checksum : String
  pub size : ℕ

-- `ObjectStorageErrorKind`
pub data StorageErrorKind : Type 0 where
  storage_unavailable object_not_found provider_mismatch malformed_response integrity_violation :
      StorageErrorKind

-- What `getPrivateObject` ends with; another error counts as unavailable.
pub data Fetched : Type 0 where
  stored : StoredObject → Fetched
  storage_error : StorageErrorKind → Fetched

-- `ObjectStoragePort`, as far as it is read.
pub record Storage : Type 0 where
  pub provider : String
  pub get_private_object : (key : String) → Fetched

-- What `readSignedObject` ends with.
pub data Read : Type 0 where
  content : StoredObject → Read
  invalid_grant media_storage_unavailable media_storage_provider_mismatch
        media_storage_integrity_error :
      Read

-- `media.size`, where 0 is false.
abbrev pub has_size : Option ℕ → Bool
has_size none = false
has_size (some zero) = false
has_size (some (suc n)) = true

-- The check of what the storage has answered.
unfoldable pub is_intact : Runtime → Media → StoredObject → Bool
is_intact runtime media object =
    str_eq object.checksum (text_of media.checksum)
    && length object.body == object.size
    && is_nat media.size object.size
    && str_eq object.content_type (text_of media.mime_type)
    && str_eq (runtime.create_hash object.body) (text_of media.checksum)

abbrev fetched_answer : Runtime → Media → Fetched → Read
fetched_answer runtime media (stored object) =
    if is_intact runtime media object then content object else media_storage_integrity_error
fetched_answer runtime media (storage_error storage_unavailable) = media_storage_unavailable
fetched_answer runtime media (storage_error provider_mismatch) = media_storage_provider_mismatch
fetched_answer runtime media (storage_error object_not_found) = media_storage_integrity_error
fetched_answer runtime media (storage_error malformed_response) = media_storage_integrity_error
fetched_answer runtime media (storage_error integrity_violation) = media_storage_integrity_error

-- `readSignedObject`, of a row that the query finds.
unfoldable pub read_row :
    Runtime
    → Config
    → Storage
    → Media
    → (media_id expires_at : ℕ) (signature method path : String) → (now : ℕ) → Read
read_row runtime config storage media media_id expires_at signature method path now =
    if not (is_stored storage.provider media)
      || not (has_size media.size)
      || not (
          verify_media_access_signature runtime config media_id expires_at (text_of media.checksum)
            signature method path now)
    then invalid_grant
    else fetched_answer runtime media (storage.get_private_object (text_of media.storage_key))

-- `readSignedObject`
unfoldable pub read_signed_object :
    Runtime
    → Config
    → Storage
    → List Media
    → (media_id expires_at : ℕ) (signature method path : String) → (now : ℕ) → Read
unfolding read_row
read_signed_object runtime config storage rows media_id expires_at signature method path now =
    elim (find_media rows media_id) [
      | none ↦ invalid_grant
      | some media ↦
          read_row runtime config storage media media_id expires_at signature method path now
    ]
