-- ===== src/Provenance/Examples.antt =====
-- An answer of a language model, and one without its tier.
use defect_sense.Prelude.{◌≡◌, ◌↔◌, refl, inl, inr, some, none}
use defect_sense.Prelude.Int.{ℤ}
use defect_sense.Enums.{llm, reasoning}
use defect_sense.Float.Fixed.{fixed}
use defect_sense.Provenance.{
  Provenance, llm_without_tier, require_honesty, construct, given_by, IsHonest, construct-IsHonest,
}

abbrev answer : Provenance ℤ
answer = record (given_by llm "adjudicator-narrative" (some (fixed.decimal 8 1)) (some 900)) {
  tier = some reasoning;
}

construct-IsHonest_example : (construct answer ≡ inr answer) ↔ IsHonest answer
construct-IsHonest_example = construct-IsHonest answer

tierless : construct (record answer { tier = none }) ≡ inl llm_without_tier
unfolding construct require_honesty
tierless = refl
