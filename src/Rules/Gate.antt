-- ===== src/Rules/Gate.antt =====
-- The material gate of app/services/rules.py: `GateOutcome`, `level_index`, `level_factor`,
-- `novelty_factor`, `evaluate_gate` and `bloom_floor_met`.
use brainxp_server.Prelude.{
  Bool, List, Option, String, [], arith, false, if◌then◌else◌, leb, length, none, not, or_else,
  some, str_eq, suc, true, ℕ, ◌+◌, ◌||◌, ◌↔◌, ◌∷◌, ◌≡◌, ◌≤◌,
}
use brainxp_server.Prelude.Int.{eqb_ℤ, leb_ℤ, pos, ℤ}
use brainxp_server.Rules.Float.{Float, IsFloat}

-- LEVEL_ORDER
abbrev pub level_order : List String
level_order = "sd" ∷ "smp" ∷ "sma" ∷ "kuliah" ∷ "profesional" ∷ []

-- `list.index`; `none` is Python's ValueError.
index_of : String → List String → Option ℕ
index_of x [] = none
index_of x (y ∷ ys) =
    let rest = index_of x ys in
    if str_eq y x then some 0 else elim rest [ none ↦ none | some i ↦ some (suc i) ]

unfoldable pub level_index : String → ℕ
unfolding index_of
level_index level = or_else (index_of level level_order) 1

pub data RejectReason : Type 0 where
  level_too_low too_thin not_study_material : RejectReason

-- `sum(1 for b in bloom_levels if b in BLOOM_HIGHER)`
higher_count : List String → ℕ
higher_count [] = 0
higher_count (b ∷ bs) = (if str_eq b "apply" || str_eq b "analyze" then 1 else 0) + higher_count bs

module _ (F : Float) where
  open F use {Number, ratio, mul, lt, eq}

  unfoldable pub level_factor : String → String → Number
  level_factor declared assessed =
      if leb (level_index declared) (level_index assessed) then ratio 1 1 else ratio 0 1

  unfoldable pub novelty_factor : ℤ → Number
  novelty_factor times_seen =
      if leb_ℤ times_seen (pos 0)
      then ratio 1 1
      else if eqb_ℤ times_seen (pos 1)
      then ratio 6 10
      else ratio 3 10

  pub record GateOutcome : Type 0 where
    pub accepted : Bool
    pub level : Number
    pub novelty : Number
    pub times_seen : ℤ
    pub reject_reason : Option RejectReason
    pub note : String

  -- the property `combined`
  abbrev pub combined : GateOutcome → Number
  combined g = mul g.level g.novelty

  abbrev pub min_concept_density : Number
  min_concept_density = ratio 20 100

  abbrev rejected : Number → ℤ → RejectReason → String → GateOutcome
  rejected nov seen reason note = record {
    accepted = false;
    level = ratio 0 1;
    novelty = nov;
    times_seen = seen;
    reject_reason = some reason;
    note = note;
  }

  unfoldable pub evaluate_gate : String → String → Number → Bool → ℤ → GateOutcome
  evaluate_gate declared assessed density is_study_material times_seen =
      let nov = novelty_factor times_seen in
      let lf = level_factor declared assessed in
      if not is_study_material
      then rejected nov times_seen not_study_material
          "Berkas ini tidak terbaca sebagai materi belajar."
      else if lt density min_concept_density
      then rejected nov times_seen too_thin
          "Materinya terlalu tipis untuk menghasilkan soal yang bermakna."
      else if eq lf (ratio 0 1)
      then rejected nov times_seen level_too_low
          "Materi ini di bawah jenjang yang dipilih, jadi soalnya tidak menguji apa pun."
      else record {
        accepted = true;
        level = lf;
        novelty = nov;
        times_seen = times_seen;
        reject_reason = none;
        note = "";
      }

  bloom_floor : String → Number
  bloom_floor level =
      if str_eq level "sd" then ratio 0 1 else if str_eq level "smp" then ratio 3 10 else ratio 6 10

  unfoldable pub bloom_floor_met : List String → String → Bool
  unfolding higher_count bloom_floor
  bloom_floor_met [] level = false
  bloom_floor_met (b ∷ bs) level =
      if eq (bloom_floor level) (ratio 0 1)
      then true
      else not (lt (ratio (higher_count (b ∷ bs)) (length (b ∷ bs))) (bloom_floor level))

  module _ (laws : IsFloat F) where
    open laws use {one_ne_zero, zero_eq_zero}

    -- The gate accepts exactly study material that is dense enough and at or above the declared
    -- level, and then gives no reason and the full level factor; otherwise it gives the first reason
    -- that applies, in the order of the checks, and a level factor of zero.
    pub evaluate_gate_lem :
        (declared assessed : String) (density : Number) (study : Bool) (seen : ℤ)
        → let g = evaluate_gate declared assessed density study seen in
          ((g.accepted ≡ true) ↔ (
            (study ≡ true)
            × (lt density min_concept_density ≡ false)
            × (level_index declared ≤ level_index assessed)))
          × (g.accepted ≡ true → (g.level ≡ ratio 1 1) × (g.reject_reason ≡ none))
          × (g.accepted ≡ false
              → (g.level ≡ ratio 0 1)
                × (g.reject_reason ≡ (
                    if not study
                    then some not_study_material
                    else if lt density min_concept_density
                    then some too_thin
                    else some level_too_low)))
    unfolding evaluate_gate level_factor
    evaluate_gate_lem declared assessed density study seen =
        ((λ h. ground arith, λ h. ground arith), λ h. ground arith, λ h. ground arith)
