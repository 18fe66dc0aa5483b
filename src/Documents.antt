-- ===== src/Documents.antt =====
-- app/services/documents.py: the kinds of files, what may be uploaded together, and the form in which
-- the provider of models gets a file. `str.lower`, the digest, and the converters of photos and of
-- office documents are parameters.
pub mod Batch
mod Tests
use brainxp_server.Policies.{lower}
use brainxp_server.Prelude.{
  Bool, List, Option, String, [], false, if◌then◌else◌, length, ltb, map, none, not, some, true, ℕ,
  ◌&&◌, ◌==◌, ◌||◌, ◌∷◌,
}
use brainxp_server.Prelude.Exec.{Result, err, invalid, ok, too_large}
use brainxp_server.Prelude.Text.{before, codes, same_codes, strip}

pub data Kind : Type 0 where
  pdf image text docx pptx odt odp : Kind

-- PASSTHROUGH and CONVERTIBLE
abbrev pub media_kinds : List (String × Kind)
media_kinds =
    ("application/pdf", pdf)
    ∷ ("image/jpeg", image)
    ∷ ("image/png", image)
    ∷ ("image/webp", image)
    ∷ ("image/heic", image)
    ∷ ("image/heif", image)
    ∷ ("text/plain", text)
    ∷ ("text/markdown", text)
    ∷ ("application/vnd.openxmlformats-officedocument.wordprocessingml.document", docx)
    ∷ ("application/msword", docx)
    ∷ ("application/vnd.openxmlformats-officedocument.presentationml.presentation", pptx)
    ∷ ("application/vnd.ms-powerpoint", pptx)
    ∷ ("application/vnd.oasis.opendocument.text", odt)
    ∷ ("application/vnd.oasis.opendocument.presentation", odp)
    ∷ []

-- `d.get(key)` of a dictionary with texts as keys.
unfoldable pub lookup_text {ℓ} : {A : Type ℓ} → List ℕ → List (String × A) → Option A
lookup_text k [] = none
lookup_text k ((j, v) ∷ rest) = if same_codes (codes j) k then some v else lookup_text k rest

abbrev pub max_photos : ℕ
max_photos = 20

abbrev pub is_image : Kind → Bool
is_image k = elim k [ image ↦ true | _ ↦ false ]

-- "photo" or "document"
unfoldable pub method_for : Kind → String
method_for k = if is_image k then "photo" else "document"

unfoldable pub guard_size : ℕ → ℕ → Result (Unit {0})
guard_size size limit = if ltb limit size then err too_large else ok tt

-- `set(kinds) != {"image"}`, for a list that is not empty
unfoldable pub all_images : List Kind → Bool
all_images [] = true
all_images (k ∷ ks) = is_image k && all_images ks

module _ (lower : List ℕ → List ℕ) where
  -- `media_type.split(";")[0].strip().lower()`
  unfoldable pub media_name : String → List ℕ
  unfolding strip before
  media_name media_type = lower (strip (before b';' (codes media_type)))

  unfoldable pub classify : String → Result Kind
  unfolding media_name lookup_text
  classify media_type = elim (lookup_text (media_name media_type) media_kinds) [
    | none ↦ err (invalid "unsupported_media")
    | some k ↦ ok k
  ]

  -- UNSUPPORTED_IMAGE
  unfoldable pub is_unsupported : String → Bool
  unfolding media_name
  is_unsupported media_type =
      same_codes (media_name media_type) (codes "image/heic")
      || same_codes (media_name media_type) (codes "image/heif")

  unfoldable pub guard_supported_image : String → Result (Unit {0})
  unfolding is_unsupported
  guard_supported_image media_type =
      if is_unsupported media_type then err (invalid "unsupported_media") else ok tt

  unfoldable pub guard_images : List String → Result (Unit {0})
  guard_images [] = ok tt
  guard_images (m ∷ ms) = elim (guard_supported_image m) [ ok _ ↦ guard_images ms | err e ↦ err e ]

  unfoldable pub classify_all : List String → Result (List Kind)
  classify_all [] = ok []
  classify_all (m ∷ ms) = elim (classify m) [
    | err e ↦ err e
    | ok k ↦ elim (classify_all ms) [ err e ↦ err e | ok ks ↦ ok (k ∷ ks) ]
  ]

  -- `batch_method` once the kinds are known.
  unfoldable pub method_of_kinds : List String → List Kind → Result String
  method_of_kinds media_types [] = err (invalid "mixed_upload")
  method_of_kinds media_types (k ∷ []) = ok (method_for k)
  method_of_kinds media_types (k ∷ l ∷ ks) =
      if not (all_images (k ∷ l ∷ ks))
      then err (invalid "mixed_upload")
      else elim (guard_images media_types) [ ok _ ↦ ok "photo" | err e ↦ err e ]

  unfoldable pub batch_method : List String → Result String
  batch_method media_types =
      if length media_types == 0
      then err (invalid "invalid")
      else if ltb max_photos (length media_types)
      then err (invalid "too_many_photos")
      else elim (classify_all media_types) [
        | err e ↦ err e
        | ok kinds ↦ method_of_kinds media_types kinds
      ]

  module _ {Bytes : Type 0} (office_to_pdf : Bytes → Kind → Result Bytes) where
    abbrev pub convert : Bytes → List ℕ → Kind → Result (Bytes × List ℕ)
    convert data' media pdf = ok (data', media)
    convert data' media image = ok (data', media)
    convert data' media text = ok (data', media)
    convert data' media kind = elim (office_to_pdf data' kind) [
      | ok converted ↦ ok (converted, codes "application/pdf")
      | err e ↦ err e
    ]

    -- What the provider is sent, with its media type. The code cleans the type before it classifies it,
    -- which cleans it again to the same effect.
    unfoldable pub to_attachment_bytes : Bytes → String → Result (Bytes × List ℕ)
    to_attachment_bytes data' media_type = elim (classify media_type) [
      | err e ↦ err e
      | ok kind ↦ elim (guard_supported_image media_type) [
        | err e ↦ err e
        | ok _ ↦ convert data' (media_name media_type) kind
      ]
    ]

module _ {Bytes : Type 0} (sha256 : Bytes → String) (joined : List String → Bytes) where
  unfoldable pub content_digest : List Bytes → String
  content_digest [] = sha256 (joined [])
  content_digest (p ∷ []) = sha256 p
  content_digest (p ∷ q ∷ ps) = sha256 (joined (map sha256 (p ∷ q ∷ ps)))
