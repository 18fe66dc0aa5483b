-- ===== src/Materials/Tests.antt =====
-- An upload, the job on it, and its removal.
use brainxp_server.Deps.{authorize_row, authorize_subject}
use brainxp_server.Documents.{batch_method, classify, classify_all, method_for, method_of_kinds}
use brainxp_server.Ledger.{claim_grant, standing}
use brainxp_server.Materials.{MaterialAccepted}
use brainxp_server.Materials.Filed.{IsFiled}
use brainxp_server.Materials.History.{
  FileRequest, Handled-IsFiled, after_request, here, next, remove, send, work_on,
}
use brainxp_server.Materials.Upload.{upload_material}
use brainxp_server.Prelude.{List, [], refl, ◌∷◌, ◌≡◌}
use brainxp_server.Prelude.Exec.{Result, err, ok}
use brainxp_server.Prelude.Rows.{delete_where, exists_where, first_where}
use brainxp_server.Prelude.Text.{same_codes}
use brainxp_server.Rules.Calendar.{cap_for, day_key, grant_for}
use brainxp_server.Rules.Float.{thousandths}
use brainxp_server.Samples.{owner}
use brainxp_server.Samples.Study.{arrival_two, empty_world, formats, notes, outside}
use brainxp_server.Storage.{World, put}
use brainxp_server.Tables.Study.{StorageKey}

abbrev stored_after : Result (MaterialAccepted × World) → List StorageKey
stored_after (ok (m, w)) = w.stored
stored_after (err e) = []

upload_test :
    stored_after (upload_material formats owner 5 (notes ∷ []) arrival_two empty_world)
    ≡ record { subject = 5; material = 2; leaf = "catatan.pdf" } ∷ []
unfolding upload_material authorize_subject authorize_row first_where batch_method classify_all
    classify same_codes method_of_kinds exists_where method_for standing grant_for day_key
    claim_grant cap_for put delete_where
upload_test = refl

empty_world-IsFiled : IsFiled [] []
unfolding exists_where first_where
empty_world-IsFiled = record { owned = λ key h. cc; held = λ id m key h. cc }

abbrev sent : FileRequest formats thousandths outside
sent = send owner 5 (notes ∷ []) arrival_two

abbrev worked : FileRequest formats thousandths outside
worked = work_on 2 3 1 200

abbrev taken_away : FileRequest formats thousandths outside
taken_away = remove owner 2 300

abbrev through : World → World
through w = after_request formats thousandths outside taken_away (
    after_request formats thousandths outside worked
      (after_request formats thousandths outside sent w))

Handled-IsFiled_example : IsFiled (through empty_world).db.materials (through empty_world).stored
Handled-IsFiled_example =
    Handled-IsFiled formats thousandths outside refl refl
      (next (next (next here sent) worked) taken_away) empty_world-IsFiled
