-- ===== src/Materials/Filed.antt =====
-- Which files the object store is to hold, as an invariant of the materials of app/routers/materials.py
-- and the keys in the store, and what a change of one row does to it.
use brainxp_server.Prelude.{
  ==_iff, Bool-cases, List, Option, Option-cases, [], ap, arith, eq_iff, false, if◌then◌else◌, inl,
  inr, none, refl, some, sym, true, ℕ, ◌++◌, ◌==◌, ◌↔◌, ◌∙◌, ◌∷◌, ◌≡◌, ◌≢◌,
}
use brainxp_server.Prelude.Rows.{
  delete_where, exists_where, exists_where-delete_where, first_where, first_where-append,
  first_where-append_cases, first_where-append_some, first_where-update_where_any, first_where_test,
  map_some, update_where,
}
use brainxp_server.Prelude.Text.{before}
use brainxp_server.Quizzes.Opening.{material_id_of}
use brainxp_server.Storage.{same_key}
use brainxp_server.Tables.Study.{Material, StorageKey}

abbrev pub Holds : StorageKey → List StorageKey → Type 0
Holds key stored = exists_where (same_key key) stored ≡ true

-- A material that names the file and was not removed.
pub record IsOwned (key : StorageKey) (ms : List Material) : Type 0 where
  pub material : Material
  pub row : first_where (material_id_of key.material) ms ≡ some material
  pub named : material.storage_key ≡ some key
  pub live : material.deleted_at ≡ none

pub record IsFiled (ms : List Material) (stored : List StorageKey) : Type 0 where
  pub owned : (key : StorageKey) → Holds key stored → IsOwned key ms
  pub held :
      (id : ℕ) (m : Material) (key : StorageKey)
      → first_where (material_id_of id) ms ≡ some m
      → m.storage_key ≡ some key
      → (key.material ≡ id) × Holds key stored

pub same_key_iff : (a b : StorageKey) → (same_key a b ≡ true) ↔ (a ≡ b)
same_key_iff a b = (
  λ h.
      let subject : a.subject ≡ b.subject = ground (arith, ==_iff a.subject b.subject) in
      let material : a.material ≡ b.material = ground (arith, ==_iff a.material b.material) in
      let leaf : a.leaf ≡ b.leaf = ground (arith, eq_iff a.leaf b.leaf) in
      λ i. record { subject = subject i; material = material i; leaf = leaf i },
  λ h. rw h (
      ground
        (arith, ==_iff b.subject b.subject, ==_iff b.material b.material, eq_iff b.leaf b.leaf)),
)

-- The files after one is deleted.
pub Holds-delete :
    (key other : StorageKey) (stored : List StorageKey)
    → Holds key (delete_where (same_key other) stored) ↔ (Holds key stored × (other ≢ key))
Holds-delete key other stored =
    let all =
      exists_where-delete_where (same_key key) (same_key other) (same_key other key)
        (λ x h. let e : key ≡ x = (same_key_iff key x).0 h in rw e refl) stored in
    ground (arith, all, same_key_iff other key)

-- The row that is found under an identifier after an update of another one, or of the same.
updated_row :
    (id j : ℕ) (f : Material → Material) (ms : List Material)
    → ((x : Material) → (f x).id ≡ x.id)
    → first_where (material_id_of j) (update_where (material_id_of id) f ms)
      ≡ map_some (λ x. if x.id == id then f x else x) (first_where (material_id_of j) ms)
updated_row id j f ms same =
    first_where-update_where_any (material_id_of j) (material_id_of id) f (λ x. rw (same x) refl) ms

-- Where a row that is found after an update comes from.
row_before :
    (id j : ℕ) (f : Material → Material) (ms : List Material) (y : Material)
    → ((x : Material) → (f x).id ≡ x.id)
    → first_where (material_id_of j) (update_where (material_id_of id) f ms) ≡ some y
    → (x : Material) × (first_where (material_id_of j) ms ≡ some x)
      × (x.id ≡ j)
      × (y ≡ (if x.id == id then f x else x))
row_before id j f ms y same h = elim (Option-cases (first_where (material_id_of j) ms)) [
  | inl e ↦ absurd (let q = updated_row id j f ms same in ground (arith, h, q, e))
  | inr (x, e) ↦
      let test = first_where_test (material_id_of j) ms x e in
      let found : x.id ≡ j = ground (arith, ==_iff x.id j) in
      let both : ◌≡◌ {A = Option Material} (some y) (some (if x.id == id then f x else x)) =
        sym h ∙ (updated_row id j f ms same ∙ ap (map_some _) e) in
      let made : y ≡ (if x.id == id then f x else x) = cc in (x, e, found, made)
]

-- An update that leaves the file alone.
pub update-IsFiled :
    (id : ℕ) (f : Material → Material) (ms : List Material) (stored : List StorageKey)
    → ((x : Material)
        → ((f x).id ≡ x.id)
          × ((f x).storage_key ≡ x.storage_key)
          × ((f x).deleted_at ≡ x.deleted_at))
    → IsFiled ms stored
    → IsFiled (update_where (material_id_of id) f ms) stored
update-IsFiled id f ms stored same h = record {
  owned = λ key k.
      let o = h.owned key k in
      record {
        material = if o.material.id == id then f o.material else o.material;
        row = updated_row id key.material f ms (λ x. (same x).0) ∙ ap (map_some _) o.row;
        named = keeps_key o.material ∙ o.named;
        live = keeps_life o.material ∙ o.live;
      };
  held = λ j y key row named.
      let (x, e, found, made) = row_before id j f ms y (λ x. (same x).0) row in
      h.held j x key e (sym (keeps_key x) ∙ (rw made at named));
}
  where
    keeps_key : (x : Material) → (if x.id == id then f x else x).storage_key ≡ x.storage_key
    keeps_key x = elim (Bool-cases (x.id == id)) [ inl b ↦ rw b (same x).1 | inr b ↦ rw b refl ]

    keeps_life : (x : Material) → (if x.id == id then f x else x).deleted_at ≡ x.deleted_at
    keeps_life x = elim (Bool-cases (x.id == id)) [ inl b ↦ rw b (same x).2 | inr b ↦ rw b refl ]

-- The row of the material that owns a file, and that of a material which does not.
owner_apart :
    (id : ℕ) (key : StorageKey) (m : Material) (ms : List Material) (o : IsOwned key ms)
    → first_where (material_id_of id) ms ≡ some m
    → (m.storage_key ≢ some key)
    → (o.material.id == id) ≡ false
owner_apart id key m ms o row other = elim (Bool-cases (o.material.id == id)) [
  | inr b ↦ b
  | inl b ↦
      let test = first_where_test (material_id_of key.material) ms o.material o.row in
      let of_id : key.material ≡ id =
        ground (arith, ==_iff o.material.id key.material, ==_iff o.material.id id) in
      let both : ◌≡◌ {A = Option Material} (some o.material) (some m) =
        sym o.row ∙ (ap (λ j. first_where (material_id_of j) ms) of_id ∙ row) in
      let is_m : o.material ≡ m = cc in
      absurd (other (sym (ap (λ (x : Material). x.storage_key) is_m) ∙ o.named))
]

-- An update after which the row names no file, together with the loss of the file that it named.
pub forget-IsFiled :
    (id : ℕ) (f : Material → Material) (m : Material) (ms : List Material)
    (stored left : List StorageKey)
    → ((x : Material) → ((f x).id ≡ x.id) × ((f x).storage_key ≡ none))
    → first_where (material_id_of id) ms ≡ some m
    → ((key : StorageKey) → Holds key left ↔ (Holds key stored × (m.storage_key ≢ some key)))
    → IsFiled ms stored
    → IsFiled (update_where (material_id_of id) f ms) left
forget-IsFiled id f m ms stored left same row lost h = record {
  owned = λ key k.
      let (before, other) = (lost key).0 k in
      let o = h.owned key before in
      let apart = owner_apart id key m ms o row other in
      record {
        material = o.material;
        row =
            updated_row id key.material f ms (λ x. (same x).0)
            ∙ (ap (map_some _) o.row ∙ rw apart refl);
        named = o.named;
        live = o.live;
      };
  held = λ j y key row' named.
      let (x, e, found, made) = row_before id j f ms y (λ x. (same x).0) row' in
      elim (Bool-cases (x.id == id)) [
        | inl b ↦
            let to_f : y ≡ f x = rw b at made in
            let to_none : ◌≡◌ {A = Option StorageKey} none (some key) =
              sym (same x).1 ∙ (rw to_f at named) in
            cc
        | inr b ↦
            let to_x : y ≡ x = rw b at made in
            let (of_j, before) = h.held j x key e (rw to_x at named) in
            (
              of_j,
              (lost key).1 (
                before,
                λ e'. let of_id = (h.held id m key row e').0 in ground (arith, ==_iff x.id id),
              ),
            )
      ];
}

-- A new material with its file.
pub add-IsFiled :
    (m : Material) (key : StorageKey) (ms : List Material) (stored : List StorageKey)
    → m.storage_key ≡ some key
    → key.material ≡ m.id
    → m.deleted_at ≡ none
    → first_where (material_id_of m.id) ms ≡ none
    → IsFiled ms stored
    → IsFiled (ms ++ m ∷ []) (key ∷ delete_where (same_key key) stored)
unfolding exists_where
add-IsFiled m key ms stored named of_m live new h = record {
  owned = λ k holds. elim (Bool-cases (same_key k key)) [
    | inl b ↦
        let is_key : k ≡ key = (same_key_iff k key).0 b in
        rw is_key (record {
          material = m;
          row = rw of_m (
              first_where-append (material_id_of m.id) ms m new (ground (arith, ==_iff m.id m.id)));
          named = named;
          live = live;
        })
    | inr b ↦
        let o = h.owned k ((Holds-delete k key stored).0 (rw b at holds)).0 in
        record {
          material = o.material;
          row = first_where-append_some (material_id_of k.material) ms (m ∷ []) o.material o.row;
          named = o.named;
          live = o.live;
        }
  ];
  held = λ j y k row named'. elim (first_where-append_cases (material_id_of j) ms m y row) [
    | inl old ↦
        let (of_j, before) = h.held j y k old named' in
        (
          of_j,
          elim (Bool-cases (same_key k key)) [
            | inl b ↦ rw b refl
            | inr b ↦ rw b (
                (Holds-delete k key stored).1
                  (before, λ e. ground (arith, same_key_iff k key, sym e)))
          ],
        )
    | inr is_m ↦
        let both : ◌≡◌ {A = Option StorageKey} (some key) (some k) =
          sym named ∙ (ap (λ (x : Material). x.storage_key) (sym is_m) ∙ named') in
        let is_k : key ≡ k = cc in
        let test = first_where_test (material_id_of j) (ms ++ m ∷ []) y row in
        let of_j : y.id ≡ j = ground (arith, ==_iff y.id j) in
        (
          ap (λ (x : StorageKey). x.material) (sym is_k)
              ∙ (of_m ∙ (ap (λ (x : Material). x.id) (sym is_m) ∙ of_j)),
          let same : same_key k key ≡ true = (same_key_iff k key).1 (sym is_k) in rw same refl,
        )
  ];
}

-- The files that are left when the one that a material names is deleted.
abbrev pub without_key : Option StorageKey → List StorageKey → List StorageKey
without_key none stored = stored
without_key (some key) stored = delete_where (same_key key) stored

pub Holds-without_key :
    (named : Option StorageKey) (stored : List StorageKey) (key : StorageKey)
    → Holds key (without_key named stored) ↔ (Holds key stored × (named ≢ some key))
Holds-without_key none stored key = (λ h. (h, λ e. cc), λ h. h.0)
Holds-without_key (some k) stored key = (
  λ h. let (before, other) = (Holds-delete key k stored).0 h in (before, λ e. other cc),
  λ h. (Holds-delete key k stored).1 (h.0, λ e. h.1 (ap some e)),
)
