-- ===== src/Materials/Added.antt =====
-- The files in the store under an upload of app/routers/materials.py.
use brainxp_server.Deps.{Caller, authorize_subject}
use brainxp_server.Documents.{batch_method, content_digest, guard_size}
use brainxp_server.Ledger.{policy_of, standing}
use brainxp_server.Materials.{MaterialAccepted}
use brainxp_server.Materials.Filed.{IsFiled, add-IsFiled}
use brainxp_server.Materials.Kept.{Filed, authorized-keeps, standing-keeps}
use brainxp_server.Materials.Upload.{
  Arrival, Formats, UploadFile, accept, insert_material, is_twin, key_of, method_allowed,
  new_material, parts_of, store_form, store_new, total_size, types_of, upload_material,
  upload_quota_hit,
}
use brainxp_server.Prelude.{
  Bool, Bool-cases, List, Option-cases, String, inl, inr, ltb, not, refl, true, ℕ, ◌==◌, ◌≡◌,
}
use brainxp_server.Prelude.Exec.{
  Exec, Result, Result-cases, forbidden, internal, invalid, lift, raise_if, rate_limited, ◌>>◌,
}
use brainxp_server.Prelude.Rows.{exists_where, first_where, first_where-exists_where}
use brainxp_server.Prelude.Triple.{
  Post-bind, Triple, Triple-bind, Triple-guard, Triple-read, lift-Post,
}
use brainxp_server.Quizzes.Opening.{material_id_of}
use brainxp_server.Storage.{World, on_db, put}
use brainxp_server.Tables.Activity.{Policy}
use brainxp_server.Tables.Study.{StorageKey}

module _ {Bytes : Type 0} (form : Formats Bytes) (is_on : form.store.enabled ≡ true) where
  store_new-Filed :
      (subject : ℕ) (digest : String) (pol : Policy) (files : List (UploadFile Bytes)) (a : Arrival)
      → Triple Filed (store_new form subject digest pol files a) (λ _. Filed)
  unfolding store_new insert_material put
  store_new-Filed subject digest pol files a w h = elim (Result-cases (store_form form files)) [
    | inr (x, e) ↦ rw (e, store_new) tt
    | inl (s, e) ↦
        let key : StorageKey = record { subject = subject; material = a.fresh; leaf = s.leaf } in
        elim (Bool-cases (form.store.puts key)) [
          | inr d ↦ rw (e, store_new, put, is_on, d) tt
          | inl stored ↦ elim (Bool-cases (exists_where (material_id_of a.fresh) w.db.materials)) [
            | inl taken ↦ rw (e, store_new, put, is_on, stored, taken, insert_material) tt
            | inr free ↦
                let m = new_material form a.fresh subject digest pol s a.at in
                rw (e, store_new, put, is_on, stored, free, insert_material)
                  (add-IsFiled m (key_of m s.leaf) w.db.materials w.stored refl refl refl
                    (first_where-exists_where (material_id_of a.fresh) w.db.materials free) h)
          ]
        ]
  ]

  accept-Filed :
      (subject : ℕ) (digest : String) (pol : Policy) (files : List (UploadFile Bytes)) (a : Arrival)
      → Triple Filed (accept form subject digest pol files a) (λ _. Filed)
  unfolding accept
  accept-Filed subject digest pol files a w h =
      elim (Option-cases (first_where (is_twin subject digest) w.db.materials)) [
        | inl e ↦ rw (e, accept) (store_new-Filed subject digest pol files a w h)
        | inr (m, e) ↦ rw (e, accept) h
      ]

  pub upload_material-Filed :
      (me : Caller) (subject : ℕ) (files : List (UploadFile Bytes)) (a : Arrival)
      → Triple Filed (upload_material form me subject files a) (λ _. Filed)
  unfolding upload_material
  upload_material-Filed me subject files a =
      Triple-bind Filed (on_db (authorize_subject me subject)) _ (λ _. Filed) _
        (authorized-keeps IsFiled me subject)
        (λ row. Triple-guard Filed (not a.within_ip) rate_limited _ _ (λ _.
          Triple-guard Filed (not a.within_global) rate_limited _ _ (λ _.
            Triple-read Filed (λ w. first_where (policy_of subject) w.db.policies) internal _ _
              (λ pol w found h.
                Post-bind (lift method_of) _ w (λ _. Filed) (λ _. Filed)
                  (lift-Post method_of w Filed h)
                  (λ method.
                    Triple-guard Filed (not (method_allowed method pol.allowed_upload_methods))
                      forbidden (filled pol) (λ _. Filed) (λ _. filled-Filed pol))))))
    where
      method_of : Result String
      method_of = batch_method form.lower (types_of form files)

      parts : List Bytes
      parts = parts_of form files

      within_limit : Result (Unit {0})
      within_limit = guard_size (total_size form parts) form.max_upload_bytes

      over_quota : Bool
      over_quota =
          ltb form.daily_upload_quota (upload_quota_hit form.daily_upload_quota a.at a.quota)

      digest : String
      digest = content_digest form.sha256 form.joined parts

      admitted : Policy → Exec World MaterialAccepted
      admitted pol =
          on_db (standing subject a.at a.local)
          >> (raise_if over_quota rate_limited >> accept form subject digest pol files a)

      filled : Policy → Exec World MaterialAccepted
      filled pol =
          raise_if (exists_where (λ p. form.size p == 0) parts) (invalid "invalid")
          >> (lift within_limit >> admitted pol)

      admitted-Filed : (pol : Policy) → Triple Filed (admitted pol) (λ _. Filed)
      admitted-Filed pol =
          Triple-bind Filed (on_db (standing subject a.at a.local)) _ (λ _. Filed) (λ _. Filed)
            (standing-keeps IsFiled subject a.at a.local)
            (λ _.
              Triple-guard Filed over_quota rate_limited (accept form subject digest pol files a)
                (λ _. Filed) (λ _. accept-Filed subject digest pol files a))

      filled-Filed : (pol : Policy) → Triple Filed (filled pol) (λ _. Filed)
      filled-Filed pol =
          Triple-guard Filed (exists_where (λ p. form.size p == 0) parts) (invalid "invalid")
            (lift within_limit >> admitted pol) (λ _. Filed)
            (λ _.
              Triple-bind Filed (lift within_limit) _ (λ _. Filed) (λ _. Filed)
                (λ w. lift-Post within_limit w Filed) (λ _. admitted-Filed pol))
