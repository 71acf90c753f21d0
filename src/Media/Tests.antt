-- ===== src/Media/Tests.antt =====
-- A picture of three bytes in a lesson: the tests of the signed addresses, and the witness.
use hsk_3_0_app.Base.{
  ℕ, ◌+◌, ◌≡◌, refl, inr, Bool, true, false, ◌&&◌, none, some, List, [], ◌∷◌, String, ◌==◌, ltb,
  if◌then◌else◌, ==_refl,
}
use hsk_3_0_app.Auth.{user}
use hsk_3_0_app.Media.{
  Runtime, Config, Media, MediaExercise, Publication, image, ready,
  canonical_media_content_resource, create_media_access_signature, is_hex_digest, signed_with,
  verify_media_access_signature, is_stored, is_public_exercise, media_content_access_method,
}
use hsk_3_0_app.Media.Access.{
  Url, not_allowed, signed_url, access_to, create_access, StoredObject, Storage, stored, content,
  invalid_grant, is_intact, read_row, read_signed_object, ttl_seconds,
}
use hsk_3_0_app.Media.Grant.{create_access-read_signed_object}

runs : Unit {0}
unfolding canonical_media_content_resource create_media_access_signature is_hex_digest signed_with
    verify_media_access_signature is_stored is_public_exercise signed_url access_to create_access
    is_intact read_row read_signed_object
runs = tt

abbrev digest : String
digest = "00112233445566778899aabbccddeeff00112233445566778899aabbccddeeff"

abbrev same_bytes : List ℕ → List ℕ → Bool
same_bytes [] [] = true
same_bytes [] (_ ∷ _) = false
same_bytes (_ ∷ _) [] = false
same_bytes (a ∷ left) (b ∷ right) = a == b && same_bytes left right

same_bytes_refl : (bytes : List ℕ) → same_bytes bytes bytes ≡ true
same_bytes_refl [] = refl
same_bytes_refl (b ∷ bytes) = rw (==_refl b, same_bytes_refl bytes) refl

abbrev runtime : Runtime
runtime = record {
  number_text = λ n. if n == 7 then "7" else "1060";
  create_hmac = λ secret text. digest;
  create_hash = λ body. digest;
  from_hex = λ text. 0 ∷ 17 ∷ [];
  timing_safe_equal = same_bytes;
}

abbrev before : Config
before = record {
  signing_secret = "old";
  previous_signing_secret = none;
  admin_access_ttl_seconds = 300;
}

abbrev after : Config
after = record {
  signing_secret = "new";
  previous_signing_secret = some "old";
  admin_access_ttl_seconds = 300;
}

abbrev shown : Publication
shown = record { is_published = true; deleted_at = none }

abbrev picture_in : List MediaExercise → Media
picture_in exercises = record {
  id = 7;
  type = image;
  mime_type = some "image/png";
  size = some 3;
  storage_provider = some "s3";
  storage_key = some "k";
  checksum = some digest;
  processing_status = ready;
  deleted_at = none;
  lesson_exercises = exercises;
}

abbrev picture : Media
picture = picture_in (record { own = shown; lesson = shown; topic = none } ∷ [])

abbrev object : StoredObject
object = record { body = 1 ∷ 2 ∷ 3 ∷ []; content_type = "image/png"; checksum = digest; size = 3 }

abbrev storage : Storage
storage = record { provider = "s3"; get_private_object = λ key. stored object }

abbrev url : Url
url = record { path = "/api/v1/media/7/content"; expires = 1060; signature = digest }

-- A learner gets no address of a picture that no public exercise shows.
hidden_test : create_access runtime before "s3" (picture_in [] ∷ []) user 7 1000 ≡ not_allowed
unfolding runs
hidden_test = refl

-- The signature of one picture is none for another path.
other_path_test :
    read_signed_object runtime before storage
      (picture ∷ [])
      7
      1060
      digest
      "GET"
      "/api/v1/media/8/content"
      1000
    ≡ invalid_grant
unfolding runs
other_path_test = refl

create_access-read_signed_object_example :
    (url.expires ≡ 1000 + ttl_seconds before user)
    × (read_signed_object runtime after storage
          (picture ∷ [])
          7
          url.expires
          url.signature
          media_content_access_method
          url.path
          1059
        ≡ (if ltb 1059 url.expires then content object else invalid_grant))
unfolding runs
create_access-read_signed_object_example =
    create_access-read_signed_object runtime before after storage (picture ∷ []) (picture ∷ [])
      picture object user 7 1000 1059 url same_bytes_refl (λ secret text. refl) (λ body. refl)
      (inr refl) refl refl refl refl refl refl
