-- ===== src/RateLimit/Waiting.antt =====
-- What a refusal costs, and how long a refused client waits.
use defect_sense.Prelude.{
  ℕ, sym, ◌+◌, ◌-◌, ◌*◌, ◌/◌, max, ◌≤◌, ◌<◌, ◌≡◌, ◌↔◌, refl, String, true, false, none, some, List,
  [], ◌∷◌, length, leb, le→leb, ap, ◌∙◌, if◌then◌else◌, Bool-cases, List-cases, inl, inr, arith,
}
use native.Mathlib.Nat.{lt-div-mul-add, div-mul-le_self, mul-le-mul_right}
use defect_sense.RateLimit.{
  Decision, SlidingWindowLimiter, hits_of, drop_expired, check_hits, check, refuse, admit,
  seconds_left,
}
use defect_sense.RateLimit.History.{is_allowed}
use defect_sense.RateLimit.Window.{hits_of-check, answer-check, window-check}
use defect_sense.Dict.{eq_iff}
use text.Mathlib.Text.{◌==◌ as str_eq}

pub drop_expired-drop_expired :
    (window now later : ℕ) (hits : List ℕ)
    → now ≤ later
    → drop_expired window later (drop_expired window now hits) ≡ drop_expired window later hits
unfolding drop_expired
drop_expired-drop_expired window now later [] h = refl
drop_expired-drop_expired window now later (t ∷ ts) h =
    ground (arith, drop_expired-drop_expired window now later ts h)

refused_hits :
    (second window now : ℕ) (key role : String) (limit : ℕ) (hits : List ℕ)
    → is_allowed (check_hits second window now key limit role hits).0 ≡ false
    → (check_hits second window now key limit role hits).1 ≡ drop_expired window now hits
unfolding check_hits
refused_hits second window now key role limit hits h = ground arith

pub check_hits-drop_expired :
    (second window now later : ℕ) (key role : String) (limit : ℕ) (hits : List ℕ)
    → now ≤ later
    → check_hits second window later key limit role (drop_expired window now hits)
      ≡ check_hits second window later key limit role hits
unfolding check_hits
check_hits-drop_expired second window now later key role limit hits h =
    rw (drop_expired-drop_expired window now later hits h) refl

module _ (second now later : ℕ) (subject key role role' : String) (limit limit' : ℕ)
    (l : SlidingWindowLimiter) where
  -- A refusal at `now` consumes nothing: on a clock that does not run backwards, a later request of
  -- the same or of another subject has the answer that it has without the refused request.
  pub refusal_consumes_nothing :
      now ≤ later
      → is_allowed (check second now subject limit role l).0 ≡ false
      → (check second later key limit' role' (check second now subject limit role l).1).0
        ≡ (check second later key limit' role' l).0
  refusal_consumes_nothing h refused =
      let next = (check second now subject limit role l).1 in
      let reads : hits_of key next ≡ (
          if str_eq subject key then drop_expired l.window now (hits_of key l) else hits_of key l) =
        elim (Bool-cases (str_eq subject key)) [
          | inl same ↦
              let same_key = (eq_iff subject key).0 same in
              let free =
                refused_hits second l.window now subject role limit (hits_of subject l)
                  (rw (answer-check second now subject role limit l) at refused) in
              rw (hits_of-check second now subject key role limit l, same, sym same_key) free
          | inr other ↦ rw (hits_of-check second now subject key role limit l, other) refl
        ] in
      elim (Bool-cases (str_eq subject key)) [
        | inl same ↦
            rw
              (
                answer-check second later key role' limit' next,
                answer-check second later key role' limit' l,
                window-check second now subject role limit l,
                reads,
                same,
                check_hits-drop_expired second l.window now later key role' limit' (hits_of key l)
                    h,
              )
              refl
        | inr other ↦
            rw
              (
                answer-check second later key role' limit' next,
                answer-check second later key role' limit' l,
                window-check second now subject role limit l,
                reads,
                other,
              )
              refl
      ]

gt→leb : (a b : ℕ) → b < a → leb a b ≡ false
gt→leb a b h = ground arith

-- The number of seconds, rounded up, times their length.
ceil_bounds :
    (second x : ℕ)
    → 0 < second
    → (x ≤ (x + (second - 1)) / second * second)
      × ((x + (second - 1)) / second * second ≤ x + (second - 1))
ceil_bounds second x h = (
  omega (arith, lt-div-mul-add {a = x + (second - 1)} h),
  div-mul-le_self (x + (second - 1)) second,
)

max-one : (q second : ℕ) → 1 < max 1 q → max 1 q * second ≡ q * second
max-one q second h = rw (max_right q h) refl
  where
    max_right : (q : ℕ) → 1 < max 1 q → max 1 q ≡ q
    max_right q h = omega arith

max-one-mul : (q second : ℕ) → q * second ≤ max 1 q * second
max-one-mul q second = mul-le-mul_right second (omega arith)

-- A refusal with a full deque: the deque, and the wait that it reports.
refused_by :
    (second window now : ℕ) (key role : String) (limit : ℕ) (live : List ℕ) (d : Decision)
    → length live ≤ limit
    → (if leb limit (length live)
        then (refuse second window now key role limit live)
        else some (admit second window now key role limit live))
      ≡ some d
    → d.allowed ≡ false
    → (oldest : ℕ) × (ts : List ℕ) × (live ≡ oldest ∷ ts)
      × (limit ≡ length live)
      × (d.retry_after ≡ seconds_left second window now oldest)
refused_by second window now key role limit [] d few e denied = absurd (ground arith)
refused_by second window now key role limit (oldest ∷ ts) d few e denied =
    (oldest, ts, refl, ground arith, ground arith)

length-drop_expired :
    (window now : ℕ) (hits : List ℕ) → length (drop_expired window now hits) ≤ length hits
unfolding drop_expired
length-drop_expired window now [] = omega arith
length-drop_expired window now (t ∷ ts) = ground (arith, length-drop_expired window now ts)

-- The deque of a full limiter, when its oldest request is out of the window and before.
full_check :
    (second window later : ℕ) (key role : String) (limit oldest : ℕ) (ts : List ℕ)
    → limit ≡ length (oldest ∷ ts)
    → is_allowed (check_hits second window later key limit role (oldest ∷ ts)).0
      ≡ leb (oldest + window) later
unfolding check_hits drop_expired
full_check second window later key role limit oldest ts full =
    ground (arith, length-drop_expired window later ts)

module _ (second window now later : ℕ) (key role : String) (limit : ℕ) (hits : List ℕ) where
  -- A client with no more hits than the limit, refused at `now` with `retry_after`, is let through
  -- when it has waited that many seconds, and refused again when it has waited a second less (which
  -- is some time at all when `retry_after` is more than 1).
  pub retry_after_exact :
      (d : Decision)
      → 0 < second
      → length hits ≤ limit
      → (check_hits second window now key limit role hits).0 ≡ some d
      → d.allowed ≡ false
      → (now + d.retry_after * second ≤ later
          → is_allowed
              (check_hits second window later key limit role (drop_expired window now hits)).0
            ≡ true)
        × (now ≤ later
            → 1 < d.retry_after
            → later + second ≤ now + d.retry_after * second
            → is_allowed
                (check_hits second window later key limit role (drop_expired window now hits)).0
              ≡ false)
  unfolding check_hits
  retry_after_exact d h few refused denied =
      let live = drop_expired window now hits in
      let (oldest, ts, e, full, wait) =
        refused_by second window now key role limit live d
          (omega (arith, few, length-drop_expired window now hits)) (answer-check_hits ∙ refused)
          denied in
      let x = window + oldest - now in
      rw (e, full_check second window later key role limit oldest ts (full ∙ ap (length {A = ℕ}) e))
        (
          λ waited. le→leb (oldest + window) later (
              omega (
                arith,
                waited,
                ap (λ r. r * second) wait,
                max-one-mul ((x + (second - 1)) / second) second,
                (ceil_bounds second x h).0,
              )),
          λ after some_wait short. gt→leb (oldest + window) later (
              omega (
                arith,
                short,
                ap (λ r. r * second) wait,
                max-one ((x + (second - 1)) / second) second (rw (sym wait) some_wait),
                (ceil_bounds second x h).1,
              )),
        )
    where
      answer-check_hits :
          (if leb limit (length (drop_expired window now hits))
            then refuse second window now key role limit (drop_expired window now hits)
            else some (admit second window now key role limit (drop_expired window now hits)))
          ≡ (check_hits second window now key limit role hits).0
      answer-check_hits = elim (Bool-cases (leb limit (length (drop_expired window now hits)))) [
        | inl t ↦ rw t refl
        | inr f ↦ rw f refl
      ]

-- `check` answers, except that it fails where a limit of 0 meets a deque without a live request.
pub check_fails_exactly_at_zero :
    (second now : ℕ) (key role : String) (limit : ℕ) (l : SlidingWindowLimiter)
    → ((check second now key limit role l).0 ≡ none)
      ↔ ((limit ≡ 0) × (drop_expired l.window now (hits_of key l) ≡ []))
unfolding check_hits
check_fails_exactly_at_zero second now key role limit l =
    rw (answer-check second now key role limit l) (fails (hits_of key l))
  where
    fails :
        (hits : List ℕ)
        → ((check_hits second l.window now key limit role hits).0 ≡ none)
          ↔ ((limit ≡ 0) × (drop_expired l.window now hits ≡ []))
    fails hits = elim (List-cases (drop_expired l.window now hits)) [
      | inl e ↦ rw e (ground arith)
      | inr (t, ts, e) ↦ rw e (ground arith)
    ]
