-- ===== src/Generation/Apart.antt =====
-- What `_dedupe` of app/services/generation.py keeps.
use brainxp_server.Generation.{GeneratedQuestion, is_new}
use brainxp_server.Prelude.{All, List, String, [], false, true, ◌++◌, ◌∷◌, ◌≡◌, ◌⊎◌}
use brainxp_server.Rules.Float.{Float}

module _ (F : Float) (likeness : String → String → F.Number) where
  open F use {ratio, lt}

  abbrev pub Differs : GeneratedQuestion → GeneratedQuestion → Type 0
  Differs k q = lt (likeness q.stem k.stem) (ratio 85 100) ≡ true

  -- Every question differs from those that were kept before it.
  abbrev pub AreApart : List GeneratedQuestion → Type 0
  AreApart [] = Unit
  AreApart (k ∷ ks) = All (Differs k) ks × AreApart ks

  -- A question is among the kept ones, or is too close to one of them.
  abbrev pub IsCovered : List GeneratedQuestion → GeneratedQuestion → Type 0
  IsCovered kept q =
      ((front : List GeneratedQuestion) × (back : List GeneratedQuestion) × (kept
          ≡ front ++ q ∷ back))
      ⊎ (is_new F likeness q kept ≡ false)

  module _ (P : GeneratedQuestion → Type 0) where
    abbrev Good : List GeneratedQuestion → List GeneratedQuestion → Type 0
    Good items result = AreApart result × All P result × All (IsCovered result) items
