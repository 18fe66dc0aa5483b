-- ===== src/Documents/Tests.antt =====
-- Uploads of one and of several files.
use brainxp_server.Documents.{
  all_images, batch_method, classify, classify_all, lookup_text, media_name, method_for,
  method_of_kinds,
}
use brainxp_server.Documents.Batch.{IsBatch, batch_method_iff}
use brainxp_server.Prelude.{List, [], refl, ℕ, ◌↔◌, ◌∷◌, ◌≡◌}
use brainxp_server.Prelude.Exec.{err, invalid, ok}
use brainxp_server.Prelude.Text.{
  before, is_blank, is_space, same_codes, strip, strip_left, strip_right,
}

abbrev unchanged : List ℕ → List ℕ
unchanged s = s

batch_method_iff_example :
    (batch_method unchanged ("image/png" ∷ "image/jpeg" ∷ []) ≡ ok "photo")
    ↔ IsBatch unchanged ("image/png" ∷ "image/jpeg" ∷ []) "photo"
batch_method_iff_example = batch_method_iff unchanged ("image/png" ∷ "image/jpeg" ∷ []) "photo"

-- A type with a parameter is one file; a document among photos is refused.
mixed :
    (batch_method unchanged (" text/plain ; charset=utf-8" ∷ []) ≡ ok "document")
    × (batch_method unchanged ("image/png" ∷ "application/pdf" ∷ []) ≡ err (invalid "mixed_upload"))
unfolding batch_method classify_all classify media_name lookup_text same_codes strip strip_left
    strip_right is_blank is_space before method_of_kinds method_for all_images
mixed = (refl, refl)
