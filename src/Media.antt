-- ===== src/Media.antt =====
-- backend/src/modules/media/: media-access-signature.ts and media-access.service.ts, which hand out
-- and serve signed addresses of private media. Times are seconds since 1970. The metrics are left out.
pub mod Access
pub mod Grant
mod Tests
use Prim.Native.Char.{code}
use text.Mathlib.Text.{◌==◌ as str_eq}
use hsk_3_0_app.Base.{
  ℕ, ◌+◌, Bool, true, false, ◌&&◌, ◌||◌, not, Option, none, some, List, [], ◌∷◌, String, concat,
  leb, ltb, ◌==◌, if◌then◌else◌, any, all, find, length, is_nat, is_some,
}
use hsk_3_0_app.Activity.Faults.{codes}

-- `MediaType`
pub data MediaType : Type 0 where
  audio image pdf video : MediaType

-- `MediaProcessingStatus`
pub data ProcessingStatus : Type 0 where
  pending processing ready failed quarantined : ProcessingStatus

-- The two columns by which content is public; `is_published` is `status === 'published'`.
pub record Publication : Type 0 where
  pub is_published : Bool
  pub deleted_at : Option ℕ

-- A row of `LessonExercise`, with the publication of its lesson and of its topic.
pub record MediaExercise : Type 0 where
  pub own : Publication
  pub lesson : Publication
  pub topic : Option Publication

-- A row of `Media`, as far as the service reads it.
pub record Media : Type 0 where
  pub id : ℕ
  pub type : MediaType
  pub mime_type : Option String
  pub size : Option ℕ
  pub storage_provider : Option String
  pub storage_key : Option String
  pub checksum : Option String
  pub processing_status : ProcessingStatus
  pub deleted_at : Option ℕ
  pub lesson_exercises : List MediaExercise

-- What the service is given of the runtime: `String(n)`, the hexadecimal digests of `createHmac` and
-- `createHash` with sha256, `Buffer.from(text, 'hex')` and `timingSafeEqual`.
pub record Runtime : Type 0 where
  pub number_text : ℕ → String
  pub create_hmac : (secret text : String) → String
  pub create_hash : (body : List ℕ) → String
  pub from_hex : String → List ℕ
  pub timing_safe_equal : List ℕ → List ℕ → Bool

-- The configuration that the constructor reads.
pub record Config : Type 0 where
  pub signing_secret : String
  pub previous_signing_secret : Option String
  pub admin_access_ttl_seconds : ℕ

-- `MEDIA_CONTENT_ACCESS_METHOD`
abbrev pub media_content_access_method : String
media_content_access_method = "GET"

-- `canonicalMediaContentResource`
unfoldable pub canonical_media_content_resource : Runtime → (media_id : ℕ) → String
canonical_media_content_resource runtime media_id =
    concat "/api/v1/media/" (concat (runtime.number_text media_id) "/content")

-- `createMediaAccessSignature`: the lines that it joins, under a secret.
unfoldable pub create_media_access_signature :
    Runtime → (secret method resource : String) (expires_at : ℕ) (checksum : String) → String
create_media_access_signature runtime secret method resource expires_at checksum =
    runtime.create_hmac secret (
      concat "hsk-media-access-v1\n" (
        concat method (
          concat "\n" (
            concat resource
              (concat "\n" (concat (runtime.number_text expires_at) (concat "\n" checksum)))))))

-- `[a-f0-9]`
abbrev is_hex_digit : ℕ → Bool
is_hex_digit c = (leb b'a' c && leb c b'f') || (leb b'0' c && leb c b'9')

-- `/^[a-f0-9]{64}$/u`
unfoldable pub is_hex_digest : String → Bool
is_hex_digest text = all is_hex_digit (codes text) && length (codes text) == 64

-- `signedWith`
unfoldable pub signed_with : Runtime → (actual expected : List ℕ) → Bool
signed_with runtime actual expected =
    length actual == length expected && runtime.timing_safe_equal actual expected

-- `verifyMediaAccessSignature`, at the time `now`.
unfoldable pub verify_media_access_signature :
    Runtime
    → Config
    → (media_id expires_at : ℕ) (checksum signature method resource : String) → (now : ℕ) → Bool
unfolding canonical_media_content_resource create_media_access_signature is_hex_digest signed_with
verify_media_access_signature runtime config media_id expires_at checksum signature method resource
      now =
    let actual = runtime.from_hex signature in
    let expected = λ (secret : String).
      runtime.from_hex
        (create_media_access_signature runtime secret method resource expires_at checksum) in
    if leb expires_at now
      || not (str_eq method media_content_access_method)
      || not (str_eq resource (canonical_media_content_resource runtime media_id))
      || not (is_hex_digest checksum)
      || not (is_hex_digest signature)
    then false
    else signed_with runtime actual (expected config.signing_secret)
      || elim config.previous_signing_secret [
        | none ↦ false
        | some previous ↦ signed_with runtime actual (expected previous)
      ]

-- `isSupportedPrivateMedia`
abbrev pub is_supported_private_media : Media → Bool
is_supported_private_media media = elim media.mime_type [
  | none ↦ false
  | some mime ↦ elim media.type [
    | image ↦ str_eq mime "image/jpeg" || str_eq mime "image/png"
    | audio ↦ str_eq mime "audio/mpeg" || str_eq mime "audio/wav"
    | pdf ↦ false
    | video ↦ false
  ]
]

abbrev is_ready : ProcessingStatus → Bool
is_ready ready = true
is_ready pending = false
is_ready processing = false
is_ready failed = false
is_ready quarantined = false

-- A text that may be null, as a condition reads it: null and the empty text are both false.
abbrev pub text_of : Option String → String
text_of none = ""
text_of (some text) = text

abbrev pub is_set : Option String → Bool
is_set text = not (str_eq (text_of text) "")

-- What both operations ask of a row: it is ready and whole, and lies with the provider in use.
unfoldable pub is_stored : (provider : String) → Media → Bool
is_stored provider media =
    is_ready media.processing_status
    && not (is_some media.deleted_at)
    && is_set media.checksum
    && is_supported_private_media media
    && is_set media.storage_key
    && is_set media.storage_provider
    && str_eq (text_of media.storage_provider) provider

-- `{ status: 'published', deletedAt: null }`
abbrev is_live_content : Publication → Bool
is_live_content publication = publication.is_published && not (is_some publication.deleted_at)

-- The condition on an exercise in the query of `createAccess`.
unfoldable pub is_public_exercise : MediaExercise → Bool
is_public_exercise exercise =
    is_live_content exercise.own
    && is_live_content exercise.lesson
    && elim exercise.topic [ none ↦ true | some topic ↦ is_live_content topic ]

-- `media.findUnique`
abbrev pub find_media : List Media → (media_id : ℕ) → Option Media
find_media rows media_id = find (λ (media : Media). media.id == media_id) rows
