-- ===== src/Materials/Kept.antt =====
-- The files in the store under the endpoints of app/routers/materials.py that change a material.
use brainxp_server.Deps.{Caller, authorize_subject, is_proxy}
use brainxp_server.Deps.Access.{authorize_keeps}
use brainxp_server.Ledger.{append, claim_grant, daily_grant, grant_today, standing}
use brainxp_server.Ledger.Balance.{Appended, append-Appended}
use brainxp_server.Ledger.Reading.{standing_keeps}
use brainxp_server.Materials.{
  apply_retention, as_deleted, delete_file, delete_material, find_live, get_material, purged,
  retained, set_retention,
}
use brainxp_server.Materials.Filed.{
  Holds-without_key, IsFiled, forget-IsFiled, update-IsFiled, without_key,
}
use brainxp_server.Prelude.{
  ==_iff, Bool-cases, List, Option-cases, String, ap, arith, false, if◌then◌else◌, inl, inr,
  is_none, none, not, refl, some, str_eq, true, ℕ, ◌||◌, ◌∙◌, ◌≡◌,
}
use brainxp_server.Prelude.Exec.{Exec, Result, err, forbidden, not_found, ok, pure}
use brainxp_server.Prelude.Int.{leb_ℤ, pos, ℤ}
use brainxp_server.Prelude.Rows.{first_where, first_where_test, update_where}
use brainxp_server.Prelude.Triple.{Post, Post-bind, Post-map, Triple, Triple-guard, Triple-read}
use brainxp_server.Quizzes.Opening.{material_id_of}
use brainxp_server.Rules.Calendar.{day}
use brainxp_server.Storage.{Store, World, delete, keep_rest, on_db}
use brainxp_server.Tables.{Db}
use brainxp_server.Tables.Study.{Material, StorageKey}

abbrev pub Filed : World → Type 0
Filed w = IsFiled w.db.materials w.stored

abbrev pub Claim : Type 1
Claim = List Material → List StorageKey → Type 0

abbrev pub Met : Claim → World → Type 0
Met Q w = Q w.db.materials w.stored

-- Code over the database that leaves the materials alone.
on_db-keeps :
    {A : Type 0} (Q : Claim) (m : Exec Db A)
    → ((P : List Material → Type 0) → Triple (λ db. P db.materials) m (λ _ db. P db.materials))
    → Triple (Met Q) (on_db m) (λ _. Met Q)
on_db-keeps {A = A} Q m keeps w h = go (m w.db) (keeps (λ ms. Q ms w.stored) w.db h)
  where
    go :
        (r : Result (A × Db))
        → Post (λ _ db. Q db.materials w.stored) r
        → Post (λ _. Met Q) (keep_rest w r)
    go (ok (a, db)) q = q
    go (err e) q = tt

pub authorized-keeps :
    (Q : Claim) (me : Caller) (subject : ℕ)
    → Triple (Met Q) (on_db (authorize_subject me subject)) (λ _. Met Q)
authorized-keeps Q me subject =
    on_db-keeps Q (authorize_subject me subject)
      (λ P. authorize_keeps (λ db. P db.materials) me subject)

get_material-keeps :
    (Q : Claim) (me : Caller) (id : ℕ) → Triple (Met Q) (on_db (get_material me id)) (λ _. Met Q)
unfolding get_material
get_material-keeps Q me id = on_db-keeps Q (get_material me id) (λ P.
    Triple-read (λ db. P db.materials) (find_live id) not_found _ _
      (λ row db found h.
        Post-bind (authorize_subject me row.subject_id) _ db (λ _ db'. P db'.materials)
          (λ _ db'. P db'.materials)
          (authorize_keeps (λ db'. P db'.materials) me row.subject_id db h) (λ _ db' q. q)))

grant_today-materials :
    (P : List Material → Type 0) (subject day : ℕ) (seconds : ℤ) (at : ℕ)
    → Triple (λ db. P db.materials) (grant_today subject day seconds at) (λ _ db. P db.materials)
unfolding grant_today
grant_today-materials P subject day seconds at db h =
    let (claimed, usage) = claim_grant subject day at db.daily_usage in
    let granted = record db { daily_usage = usage } in
    elim (Bool-cases (not claimed || leb_ℤ seconds (pos 0))) [
      | inl e ↦ rw e h
      | inr e ↦ rw e (
          Post-bind (append (daily_grant subject seconds at)) (λ _. pure seconds) granted
            (λ _ db'. P db'.materials) (λ _ db'. P db'.materials)
            (Post-map (Appended (daily_grant subject seconds at) granted) (λ _ db'. P db'.materials)
              (append (daily_grant subject seconds at) granted)
              (elim [ true ↦ λ db' q. rw q h | false ↦ λ db' q. rw q.0 h ])
              (append-Appended (daily_grant subject seconds at) granted))
            (λ _ db' q. q))
    ]

pub standing-keeps :
    (Q : Claim) (subject at local : ℕ)
    → Triple (Met Q) (on_db (standing subject at local)) (λ _. Met Q)
standing-keeps Q subject at local = on_db-keeps Q (standing subject at local) (λ P db h.
    Post-map _ _ (standing subject at local db) (λ st db' q. q.0)
      (standing_keeps (λ db'. P db'.materials) subject at local
        (λ day seconds. grant_today-materials P subject day seconds at) db h))

-- A row that is found has the identifier.
pub found_id :
    (id : ℕ) (ms : List Material) (m : Material)
    → first_where (material_id_of id) ms ≡ some m
    → m.id ≡ id
found_id id ms m e =
    let test = first_where_test (material_id_of id) ms m e in ground (arith, ==_iff m.id id)

-- The file that a material names goes, and then its name.
pub forget-Filed :
    (id : ℕ) (f : Material → Material) (m : Material) (w : World)
    → ((x : Material) → ((f x).id ≡ x.id) × ((f x).storage_key ≡ none))
    → first_where (material_id_of id) w.db.materials ≡ some m
    → Filed w
    → IsFiled
        (update_where (material_id_of id) f w.db.materials)
        (without_key m.storage_key w.stored)
forget-Filed id f m w same row h =
    forget-IsFiled id f m w.db.materials w.stored (without_key m.storage_key w.stored) same row
      (Holds-without_key m.storage_key w.stored) h

find_live_row :
    (id : ℕ) (db : Db) (m : Material)
    → find_live id db ≡ some m
    → first_where (material_id_of id) db.materials ≡ some m
find_live_row id db m h = elim (Option-cases (first_where (material_id_of id) db.materials)) [
  | inl e ↦ let q = rw (e, find_live) at h in cc
  | inr (x, e) ↦ e ∙ alive x (rw (e, find_live) at h)
]
  where
    alive :
        (x : Material) → (if is_none x.deleted_at then some x else none) ≡ some m → some x ≡ some m
    alive x q = elim (Bool-cases (is_none x.deleted_at)) [
      | inl b ↦ rw b at q
      | inr b ↦ let q' = rw b at q in cc
    ]

-- The row is there, and the files are in order.
abbrev pub FiledWith : ℕ → Material → Claim
FiledWith id row ms stored = (first_where (material_id_of id) ms ≡ some row) × IsFiled ms stored

module _ (store : Store) (is_on : store.enabled ≡ true) where
  apply_retention-Filed :
      (row : Material) (mode : String) (at : ℕ) (w : World)
      → first_where (material_id_of row.id) w.db.materials ≡ some row
      → Filed w
      → Post (λ _. Filed) (apply_retention store row mode at w)
  unfolding apply_retention delete
  apply_retention-Filed row mode at w found h = elim (Option-cases row.storage_key) [
    | inl e ↦ rw (e, apply_retention) retain
    | inr (key, e) ↦ elim (Bool-cases (str_eq mode "auto_purge")) [
      | inl b ↦
          let q = forget-Filed row.id (purged at) row w (λ x. (refl, refl)) found h in
          elim (Bool-cases (store.deletes key)) [
            | inl d ↦ rw (e, b, apply_retention, delete, is_on, d) (rw e at q)
            | inr d ↦ rw (e, b, apply_retention, delete, is_on, d) tt
          ]
      | inr b ↦ rw (e, b, apply_retention) retain
    ]
  ]
    where
      retain :
          IsFiled (update_where (material_id_of row.id) (retained mode) w.db.materials) w.stored
      retain =
          update-IsFiled row.id (retained mode) w.db.materials w.stored (λ x. (refl, refl, refl)) h

  pub set_retention-Filed :
      (me : Caller) (id : ℕ) (mode : String) (at : ℕ)
      → Triple Filed (set_retention store me id mode at) (λ _. Filed)
  unfolding set_retention
  set_retention-Filed me id mode at =
      Triple-read Filed (λ w. find_live id w.db) not_found _ _
        (λ row w found h.
          let here_is = find_live_row id w.db row found in
          let Q = FiledWith row.id row in
          let same = found_id id w.db.materials row here_is in
          Post-bind (on_db (authorize_subject me row.subject_id)) _ w (λ _. Met Q) (λ _. Filed)
            (authorized-keeps Q me row.subject_id w
              (ap (λ j. first_where (material_id_of j) w.db.materials) same ∙ here_is, h))
            (λ subject.
              Triple-guard (Met Q) (is_proxy me subject) forbidden _ (λ _. Filed)
                (λ _ w' q.
                  Post-bind (apply_retention store row mode at) _ w' (λ _. Filed) (λ _. Filed)
                    (apply_retention-Filed row mode at w' q.0 q.1)
                    (λ _. get_material-keeps IsFiled me id))))

  pub delete_material-Filed :
      (me : Caller) (id at : ℕ) → Triple Filed (delete_material store me id at) (λ _. Filed)
  unfolding delete_material delete_file delete
  delete_material-Filed me id at =
      Triple-read Filed (λ w. first_where (material_id_of id) w.db.materials) not_found _ _
        (λ row w found h.
          let Q = FiledWith id row in
          Post-bind (on_db (authorize_subject me row.subject_id)) _ w (λ _. Met Q) (λ _. Filed)
            (authorized-keeps Q me row.subject_id w (found, h))
            (λ subject.
              Triple-guard (Met Q) (is_proxy me subject) forbidden _ (λ _. Filed)
                (λ _ w' q.
                  let left = forget-Filed id (as_deleted at) row w' (λ x. (refl, refl)) q.0 q.1 in
                  elim (Option-cases row.storage_key) [
                    | inl e ↦ rw e (rw e at left)
                    | inr (key, e) ↦ elim (Bool-cases (store.deletes key)) [
                      | inl d ↦ rw (e, delete, is_on, d) (rw e at left)
                      | inr d ↦ rw (e, delete, is_on, d) tt
                    ]
                  ])))
