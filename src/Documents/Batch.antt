-- ===== src/Documents/Batch.antt =====
-- What may be uploaded together.
use mathlib.Core.Path.{subst}
use brainxp_server.Documents.{
  Kind, all_images, batch_method, classify, classify_all, docx, guard_images, guard_supported_image,
  image, is_image, is_unsupported, max_photos, method_for, method_of_kinds, odp, odt, pdf, pptx,
  text,
}
use brainxp_server.Prelude.{
  All, Bool-cases, List, String, [], ap, arith, false, inl, inr, length, refl, suc, sym, true, ℕ,
  ◌↔◌, ◌∙◌, ◌∷◌, ◌≡◌, ◌≤◌,
}
use brainxp_server.Prelude.Exec.{AppError, Result, Result-cases, err, ok}

module _ (lower : List ℕ → List ℕ) where
  abbrev pub HasKind : String → Type 0
  HasKind m = (k : Kind) × (classify lower m ≡ ok k)

  abbrev pub IsPhoto : String → Type 0
  IsPhoto m = (classify lower m ≡ ok image) × (is_unsupported lower m ≡ false)

  -- A single file of a known kind, or two and more photos of supported formats, up to the limit.
  pub data IsBatch : List String → String → Type 0 where
    single : (m : String) (k : Kind) → classify lower m ≡ ok k → IsBatch (m ∷ []) (method_for k)
    photos :
        (m n : String) (ms : List String)
        → length (m ∷ n ∷ ms) ≤ max_photos
        → All IsPhoto (m ∷ n ∷ ms)
        → IsBatch (m ∷ n ∷ ms) "photo"

  guard_images_ok :
      (ms : List String)
      → All (λ m. is_unsupported lower m ≡ false) ms
      → guard_images lower ms ≡ ok tt
  unfolding guard_images guard_supported_image
  guard_images_ok [] h = refl
  guard_images_ok (m ∷ ms) h = rw (h.0, guard_images) (guard_images_ok ms h.1)

  classify_photos :
      (ms : List String)
      → All IsPhoto ms
      → (ks : List Kind) × (classify_all lower ms ≡ ok ks)
        × (length ks ≡ length ms)
        × (all_images ks ≡ true)
  unfolding classify_all all_images
  classify_photos [] h = ([], refl, refl, refl)
  classify_photos (m ∷ ms) h =
      let (ks, e, l, a) = classify_photos ms h.1 in
      (image ∷ ks, rw (h.0.0, e, classify_all) refl, ap suc l, a)

  supported : (ms : List String) → All IsPhoto ms → All (λ m. is_unsupported lower m ≡ false) ms
  supported [] h = tt
  supported (m ∷ ms) h = (h.0.1, supported ms h.1)

  photo_kinds :
      (m n : String) (ms : List String) (ks : List Kind)
      → length (m ∷ n ∷ ms) ≤ max_photos
      → guard_images lower (m ∷ n ∷ ms) ≡ ok tt
      → classify_all lower (m ∷ n ∷ ms) ≡ ok ks
      → length ks ≡ length (m ∷ n ∷ ms)
      → all_images ks ≡ true
      → batch_method lower (m ∷ n ∷ ms) ≡ ok "photo"
  unfolding batch_method method_of_kinds
  photo_kinds m n ms [] l g e len a = absurd (omega arith)
  photo_kinds m n ms (k ∷ []) l g e len a = absurd (omega arith)
  photo_kinds m n ms (k ∷ k' ∷ ks) l g e len a = ground arith

  single_kind :
      (m : String) (k : Kind)
      → classify lower m ≡ ok k
      → batch_method lower (m ∷ []) ≡ ok (method_for k)
  unfolding batch_method method_of_kinds classify_all
  single_kind m k e = rw (e, classify_all) refl

  batch_accepted :
      (ms : List String) (method : String) → IsBatch ms method → batch_method lower ms ≡ ok method
  batch_accepted _ _ (single m k e) = single_kind m k e
  batch_accepted _ _ (photos m n ms l h) =
      let (ks, e, len, a) = classify_photos (m ∷ n ∷ ms) h in
      photo_kinds m n ms ks l (guard_images_ok (m ∷ n ∷ ms) (supported (m ∷ n ∷ ms) h)) e len a

  guard_images_found :
      (ms : List String) (u : Unit {0})
      → guard_images lower ms ≡ ok u
      → All (λ m. is_unsupported lower m ≡ false) ms
  unfolding guard_images guard_supported_image
  guard_images_found [] u h = tt
  guard_images_found (m ∷ ms) u h = elim (Bool-cases (is_unsupported lower m)) [
    | inl e ↦ absurd (cc (rw (e, guard_images) at h))
    | inr e ↦ (e, guard_images_found ms u (rw (e, guard_images) at h))
  ]

  is_image_found : (k : Kind) → is_image k ≡ true → k ≡ image
  is_image_found image h = refl
  is_image_found pdf h = cc
  is_image_found text h = cc
  is_image_found docx h = cc
  is_image_found pptx h = cc
  is_image_found odt h = cc
  is_image_found odp h = cc

  classify_all-cons :
      (m : String) (ms : List String) (ks : List Kind)
      → classify_all lower (m ∷ ms) ≡ ok ks
      → (k : Kind) × (ks' : List Kind) × (classify lower m ≡ ok k)
        × (classify_all lower ms ≡ ok ks')
        × (ks ≡ k ∷ ks')
  unfolding classify_all
  classify_all-cons m ms ks h = elim (Result-cases (classify lower m)) [
    | inr (x, e) ↦ absurd (cc (rw (e, classify_all) at h))
    | inl (k, e) ↦ elim (Result-cases (classify_all lower ms)) [
      | inr (x, e') ↦ absurd (cc (rw (e, e', classify_all) at h))
      | inl (ks', e') ↦ (k, ks', e, e', cc (rw (e, e', classify_all) at h))
    ]
  ]

  photos_found :
      (ms : List String) (ks : List Kind)
      → classify_all lower ms ≡ ok ks
      → all_images ks ≡ true
      → All (λ m. is_unsupported lower m ≡ false) ms
      → All IsPhoto ms
  unfolding all_images
  photos_found [] ks e a s = tt
  photos_found (m ∷ ms) ks e a s =
      let (k, ks', p, q, r) = classify_all-cons m ms ks e in
      let both = rw (r, all_images) at a in
      let same : k ≡ image = is_image_found k (ground arith) in
      ((p ∙ ap ok same, s.0), photos_found ms ks' q (ground arith) s.1)

  rejected_single :
      (m : String) (x : AppError)
      → classify lower m ≡ err x
      → (method : String) → batch_method lower (m ∷ []) ≡ ok method
      → ⊥
  unfolding batch_method classify_all
  rejected_single m x e method h = cc (rw (e, classify_all) at h)

  -- What an accepted batch of several files has passed.
  kinds_passed :
      (m n : String) (ms : List String) (ks : List Kind) (method : String)
      → length ks ≡ length (m ∷ n ∷ ms)
      → method_of_kinds lower (m ∷ n ∷ ms) ks ≡ ok method
      → (all_images ks ≡ true) × (guard_images lower (m ∷ n ∷ ms) ≡ ok tt) × (method ≡ "photo")
  unfolding method_of_kinds
  kinds_passed m n ms [] method len h = absurd (omega arith)
  kinds_passed m n ms (k ∷ []) method len h = absurd (omega arith)
  kinds_passed m n ms (k ∷ k' ∷ ks) method len h = (ground arith, ground arith, ground arith)

  length-classify_all :
      (ms : List String) (ks : List Kind) → classify_all lower ms ≡ ok ks → length ks ≡ length ms
  unfolding classify_all
  length-classify_all [] ks h = ground (arith)
  length-classify_all (m ∷ ms) ks h =
      let (k, ks', p, q, r) = classify_all-cons m ms ks h in
      ap length r ∙ ap suc (length-classify_all ms ks' q)

  several_found :
      (m n : String) (ms : List String) (method : String)
      → batch_method lower (m ∷ n ∷ ms) ≡ ok method
      → (length (m ∷ n ∷ ms) ≤ max_photos)
        × (ks : List Kind) × (classify_all lower (m ∷ n ∷ ms) ≡ ok ks)
        × (method_of_kinds lower (m ∷ n ∷ ms) ks ≡ ok method)
  unfolding batch_method
  several_found m n ms method h = elim (Result-cases (classify_all lower (m ∷ n ∷ ms))) [
    | inr (x, e) ↦ absurd (ground arith)
    | inl (ks, e) ↦ (ground arith, ks, e, ground arith)
  ]

  IsBatch-found :
      (ms : List String) (method : String) → batch_method lower ms ≡ ok method → IsBatch ms method
  unfolding batch_method
  IsBatch-found [] method h = absurd (ground arith)
  IsBatch-found (m ∷ []) method h = elim (Result-cases (classify lower m)) [
    | inr (x, e) ↦ absurd (rejected_single m x e method h)
    | inl (k, e) ↦
        let both : ◌≡◌ {A = Result String} (ok (method_for k)) (ok method) =
          sym (single_kind m k e) ∙ h in
        subst (λ (x : String). IsBatch (m ∷ []) x) (cc both) (single m k e)
  ]
  IsBatch-found (m ∷ n ∷ ms) method h =
      let (few, ks, e, p) = several_found m n ms method h in
      let (a, g, t) = kinds_passed m n ms ks method (length-classify_all (m ∷ n ∷ ms) ks e) p in
      subst (λ (x : String). IsBatch (m ∷ n ∷ ms) x) (sym t)
        (photos m n ms few
          (photos_found (m ∷ n ∷ ms) ks e a (guard_images_found (m ∷ n ∷ ms) tt g)))

  -- An upload is accepted, with a method, exactly when it is one file of a known kind, by photo if
  -- that is an image and else by document, or two to twenty photos, none of a format that cannot be
  -- read, by photo.
  pub batch_method_iff :
      (ms : List String) (method : String) → (batch_method lower ms ≡ ok method) ↔ IsBatch ms method
  batch_method_iff ms method = (IsBatch-found ms method, batch_accepted ms method)
