-- ===== src/Llm/Keys.antt =====
-- What the key of the response cache tells apart.
use Prim.Native.String
use Prim.Native.Char.{Char, code}
use text.Mathlib.TextLemmas.{
  append_inj, append_cancel_left, length-append, cons-append, head-eq_of_cons-eq,
}
use defect_sense.Prelude.{◌≡◌, ◌↔◌, refl, sym, ap, ◌∙◌, String, arith}
use defect_sense.Enums.{ModelTier, reasoning, fast, vision_tier}
use defect_sense.Llm.{GenerationRequest, tier_value}
use defect_sense.Llm.Cache.{joined, key}

-- Two texts that start with different characters differ.
apart :
    (c d : Char) (s t x y : String)
    → String.◌++◌ (String.◌∷◌ c s) x ≡ String.◌++◌ (String.◌∷◌ d t) y
    → code c ≡ code d
apart c d s t x y h = ap code (head-eq_of_cons-eq (sym (cons-append c s x) ∙ h ∙ cons-append d t y))

tier_prefix :
    (t u : ModelTier) (x y : String)
    → String.◌++◌ (tier_value t) x ≡ String.◌++◌ (tier_value u) y
    → (t ≡ u) × (x ≡ y)
tier_prefix reasoning reasoning x y h = (refl, append_cancel_left "reasoning" x y h)
tier_prefix reasoning fast x y h = absurd (omega (arith, apart "r" "f" "easoning" "ast" x y h))
tier_prefix reasoning vision_tier x y h =
    absurd (omega (arith, apart "r" "v" "easoning" "ision" x y h))
tier_prefix fast reasoning x y h = absurd (omega (arith, apart "f" "r" "ast" "easoning" x y h))
tier_prefix fast fast x y h = (refl, append_cancel_left "fast" x y h)
tier_prefix fast vision_tier x y h = absurd (omega (arith, apart "f" "v" "ast" "ision" x y h))
tier_prefix vision_tier reasoning x y h =
    absurd (omega (arith, apart "v" "r" "ision" "easoning" x y h))
tier_prefix vision_tier fast x y h = absurd (omega (arith, apart "v" "f" "ision" "ast" x y h))
tier_prefix vision_tier vision_tier x y h = (refl, append_cancel_left "vision" x y h)

module _ (digest : String → String) (long : (s : String) → String.count (digest s) ≡ 32) where
  -- Where every digest has its 32 characters, two requests share a key exactly when they are of one
  -- tier and one pack and their messages have one digest: the images, the schema, the limits and the
  -- stop words of a request are no part of it.
  pub key_parts :
      (r s : GenerationRequest)
      → (key digest r ≡ key digest s) ↔ (
          (r.tier ≡ s.tier)
          × (r.pack_id ≡ s.pack_id)
          × (digest (joined r.messages) ≡ digest (joined s.messages)))
  unfolding key
  key_parts r s = (λ h. apart_at h, λ h. rw (h.0, h.1, h.2) refl)
    where
      packs :
          (p q x y : String)
          → String.count x ≡ String.count y
          → String.◌++◌ p (String.◌++◌ ":" x) ≡ String.◌++◌ q (String.◌++◌ ":" y)
          → (p ≡ q) × (x ≡ y)
      packs p q x y same h =
          let long_p = length-append p (String.◌++◌ ":" x) in
          let long_q = length-append q (String.◌++◌ ":" y) in
          let tail_x = length-append ":" x in
          let tail_y = length-append ":" y in
          let (front, back) = append_inj h (omega (arith, ap String.count h)) in
          (front, append_cancel_left ":" x y back)

      apart_at :
          key digest r ≡ key digest s
          → (r.tier ≡ s.tier)
            × (r.pack_id ≡ s.pack_id)
            × (digest (joined r.messages) ≡ digest (joined s.messages))
      apart_at h =
          let (tiers, rest) = tier_prefix r.tier s.tier _ _ h in
          let (front, back) =
            packs r.pack_id s.pack_id _ _ (long _ ∙ sym (long _))
              (append_cancel_left ":" _ _ rest) in
          (tiers, front, back)
