-- ===== src/Generation/Tests.antt =====
-- A material that is read, accepted and made into questions.
use brainxp_server.Documents.{
  classify, guard_supported_image, is_unsupported, lookup_text, media_name, to_attachment_bytes,
}
use brainxp_server.Generation.{
  cleaned, dedupe, dedupe_from, distinct_count, first_over, is_banned, is_new, keep, option_checks,
  overflow, reject_choice, reject_essay, reject_options, rejection, rubric_checks,
}
use brainxp_server.Generation.Fit.{IsFit, rejection_iff}
use brainxp_server.Generation.Outcome.{Ends}
use brainxp_server.Generation.Outside.{GateVerdict, Outside}
use brainxp_server.Generation.Run.{
  await_material, fail, finish, generate, judge, purge, reason_code, rows_for, run,
}
use brainxp_server.Generation.Seen.{near_duplicate_penalty, times_studied}
use brainxp_server.Prelude.{
  List, Option, String, [], false, map, none, refl, some, suc, true, zero, ℕ, ◌↔◌, ◌∷◌, ◌≡◌,
}
use brainxp_server.Prelude.Exec.{Result, err, internal, ok}
use brainxp_server.Prelude.Int.{◌-ℤ◌}
use brainxp_server.Prelude.Order.{sort_by}
use brainxp_server.Prelude.Rows.{
  count_where, delete_where, exists_where, first_where, rows_where, update_where,
}
use brainxp_server.Prelude.Text.{
  before, has_part, has_prefix, is_blank, is_space, same_codes, strip, strip_left, strip_right,
}
use brainxp_server.Rules.Float.{thousandths}
use brainxp_server.Rules.Gate.{
  bloom_floor_met, evaluate_gate, level_factor, level_index, novelty_factor,
}
use brainxp_server.Rules.Reward.{session_mix}
use brainxp_server.Samples.Study.{
  open_store, outside, plain, stub_model, uploaded_two, world_two, written,
}
use brainxp_server.Storage.{
  Stage, World, at_partial, at_reading, at_ready, at_validating, delete, publish,
}
use brainxp_server.Tables.Study.{Material}

-- The row is there at the third look.
abbrev third_look : ℕ → Option Material
third_look zero = none
third_look (suc zero) = none
third_look (suc (suc n)) = some uploaded_two

-- A provider that takes the file for no study material, and a store that deletes nothing.
abbrev not_study : GateVerdict thousandths String
not_study = record {
  is_study_material = false;
  assessed_level = "smp";
  concept_density = 550;
  detected_language = "id";
  topic_summary = "";
}

abbrev stuck : Outside thousandths String
stuck = record outside {
  store = record open_store { deletes = λ key. false };
  provider = record stub_model { validate_material = λ att level. ok not_study };
}

stuck_test : run thousandths String stuck 2 third_look 3 100 world_two ≡ err internal
unfolding run await_material first_where publish to_attachment_bytes classify same_codes
    guard_supported_image evaluate_gate delete
stuck_test = refl

abbrev kept_stages : Result (Unit {0} × World) → List Stage
kept_stages (ok (u, w)) = map (λ p. p.1) w.published
kept_stages (err e) = []

-- One of the three questions is kept.
run_test :
    kept_stages (run thousandths String outside 2 third_look 3 100 world_two)
    ≡ at_ready 1 true ∷ at_partial 1 ∷ at_validating ∷ at_reading ∷ []
unfolding run first_where publish to_attachment_bytes classify guard_supported_image evaluate_gate
    level_factor level_index dedupe dedupe_from keep rejection is_blank overflow first_over
    option_checks rubric_checks reject_choice reject_options distinct_count cleaned exists_where
    same_codes strip is_banned has_part is_unsupported lookup_text media_name await_material fail
    finish generate judge near_duplicate_penalty purge reason_code rows_for times_studied is_new
    reject_essay ◌-ℤ◌ sort_by count_where delete_where rows_where update_where before has_prefix
    is_space strip_left strip_right bloom_floor_met novelty_factor session_mix delete
run_test = refl

rejection_iff_example : (rejection plain written ≡ none) ↔ IsFit plain written
rejection_iff_example = rejection_iff plain written
