-- ===== src/Grading/Tests.antt =====
-- Essays and choices, graded.
use brainxp_server.Prelude.{refl, ◌≡◌}
use brainxp_server.Prelude.Text.{
  codes, is_blank, is_space, strip, strip_left, strip_right, word_count, words_after,
}

seven_words : word_count (codes "  satu dua tiga   empat lima enam tujuh ") ≡ 7
unfolding word_count words_after is_space
seven_words = refl

stripped : strip (codes "  dua kata ") ≡ codes "dua kata"
unfolding strip strip_left strip_right is_blank is_space
stripped = refl
