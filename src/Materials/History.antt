-- ===== src/Materials/History.antt =====
-- What is done to materials, in any order.
use brainxp_server.Deps.{Caller}
use brainxp_server.Generation.Outside.{Outside}
use brainxp_server.Generation.Run.{run, visibility_tries}
use brainxp_server.Materials.{delete_material, set_retention}
use brainxp_server.Materials.Added.{upload_material-Filed}
use brainxp_server.Materials.Filed.{IsFiled}
use brainxp_server.Materials.Job.{await_material_cases, run-Filed, shown_after}
use brainxp_server.Materials.Kept.{Filed, delete_material-Filed, set_retention-Filed}
use brainxp_server.Materials.Upload.{Arrival, Formats, UploadFile, upload_material}
use brainxp_server.Prelude.{List, String, true, ℕ, ◌≡◌}
use brainxp_server.Prelude.Exec.{outcome}
use brainxp_server.Prelude.Rows.{first_where}
use brainxp_server.Prelude.Triple.{outcome-Post}
use brainxp_server.Quizzes.Opening.{material_id_of}
use brainxp_server.Rules.Float.{Float}
use brainxp_server.Storage.{World}

module _ {Bytes : Type 0} (form : Formats Bytes) (F : Float) (out : Outside F Bytes) where
  -- A request with its caller, or a job of the worker with the number of looks after which it sees the
  -- row, and the identifier of a new set.
  pub data FileRequest : Type 0 where
    send : Caller → ℕ → List (UploadFile Bytes) → Arrival → FileRequest
    retain : Caller → ℕ → String → ℕ → FileRequest
    remove : Caller → ℕ → ℕ → FileRequest
    work_on : ℕ → ℕ → ℕ → ℕ → FileRequest

  abbrev pub after_request : FileRequest → World → World
  after_request (send me subject files a) w = outcome w (upload_material form me subject files a w)
  after_request (retain me id mode at) w = outcome w (set_retention form.store me id mode at w)
  after_request (remove me id at) w = outcome w (delete_material form.store me id at w)
  after_request (work_on id delay set at) w =
      let sight = shown_after delay (first_where (material_id_of id) w.db.materials) in
      outcome w (run F Bytes out id sight set at w)

  pub data Handled (begin : World) : World → Type 0 where
    here : Handled begin begin
    next : {w : World} → Handled begin w → (r : FileRequest) → Handled begin (after_request r w)

  module _ (form_on : form.store.enabled ≡ true) (out_on : out.store.enabled ≡ true) where
    after_request-Filed : (r : FileRequest) (w : World) → Filed w → Filed (after_request r w)
    after_request-Filed (send me subject files a) w h =
        outcome-Post w (upload_material form me subject files a w) Filed h
          (upload_material-Filed form form_on me subject files a w h)
    after_request-Filed (retain me id mode at) w h =
        outcome-Post w (set_retention form.store me id mode at w) Filed h
          (set_retention-Filed form.store form_on me id mode at w h)
    after_request-Filed (remove me id at) w h =
        outcome-Post w (delete_material form.store me id at w) Filed h
          (delete_material-Filed form.store form_on me id at w h)
    after_request-Filed (work_on id delay set at) w h =
        let row = first_where (material_id_of id) w.db.materials in
        outcome-Post w (run F Bytes out id (shown_after delay row) set at w) Filed h (
          run-Filed F Bytes out out_on id (shown_after delay row) set at w
            (await_material_cases delay row visibility_tries 0) h)

    -- Take an object store that is configured. Whatever uploads, changes of retention, removals and jobs
    -- follow each other, by anyone, refused ones included, from a state where it holds: the store has no
    -- file but those of materials that name them and were not removed, and it has every file that a
    -- material names.
    pub Handled-IsFiled :
        {begin w : World}
        → Handled begin w
        → IsFiled begin.db.materials begin.stored
        → IsFiled w.db.materials w.stored
    Handled-IsFiled here h = h
    Handled-IsFiled (next {w} r q) h = after_request-Filed q w (Handled-IsFiled r h)
