-- ===== src/RateLimit.antt =====
-- The sliding window of apps/api/ratelimit.py. Times are the clock's readings in ticks, and
-- `second` is how many of them make a second. A deque is the list of its timestamps, oldest first.
pub mod History
pub mod Window
pub mod Waiting
pub mod Timed
pub mod Pruning
pub mod Middleware
pub mod Moves
pub mod Admission
mod Examples
use defect_sense.Prelude.{
  ℕ, suc, ◌+◌, ◌-◌, ◌/◌, max, String, Bool, true, false, Option, none, some, List, [], ◌∷◌, ◌++◌,
  length, leb, if◌then◌else◌,
}
use defect_sense.Dict.{Dict, lookup, insert}

pub record Decision : Type 0 where
  pub allowed : Bool
  pub limit : ℕ
  pub remaining : ℕ
  pub retry_after : ℕ
  pub reset_in : ℕ
  pub subject : String
  pub role : String

pub record SlidingWindowLimiter : Type 0 where
  pub window : ℕ
  pub hits : Dict (List ℕ)

-- `self._hits[key]` of a defaultdict
abbrev pub or_empty : Option (List ℕ) → List ℕ
or_empty none = []
or_empty (some ts) = ts

abbrev pub hits_of : String → SlidingWindowLimiter → List ℕ
hits_of key l = or_empty (lookup key l.hits)

-- `while hits and hits[0] <= cutoff: hits.popleft()`, the cutoff being `now - window`
unfoldable pub drop_expired : ℕ → ℕ → List ℕ → List ℕ
drop_expired window now [] = []
drop_expired window now (t ∷ ts) =
    let rest = drop_expired window now ts in if leb (t + window) now then rest else t ∷ ts

-- max(1, math.ceil(window - (now - t)))
abbrev pub seconds_left : ℕ → ℕ → ℕ → ℕ → ℕ
seconds_left second window now t = max 1 ((window + t - now + (second - 1)) / second)

-- A refusal reads `hits[0]`, which is an IndexError (`none`) when a limit of 0 meets no hits.
abbrev pub refuse : ℕ → ℕ → ℕ → String → String → ℕ → List ℕ → Option Decision
refuse second window now key role limit [] = none
refuse second window now key role limit (oldest ∷ ts) = some (record {
  allowed = false;
  limit = limit;
  remaining = 0;
  retry_after = seconds_left second window now oldest;
  reset_in = seconds_left second window now oldest;
  subject = key;
  role = role;
})

abbrev pub first_or : ℕ → List ℕ → ℕ
first_or d [] = d
first_or d (t ∷ ts) = t

abbrev pub admit : ℕ → ℕ → ℕ → String → String → ℕ → List ℕ → Decision
admit second window now key role limit live = record {
  allowed = true;
  limit = limit;
  remaining = limit - length (live ++ (now ∷ []));
  retry_after = 0;
  reset_in = seconds_left second window now (first_or now live);
  subject = key;
  role = role;
}

-- The deque that `key` has after the call, and the answer.
unfoldable pub check_hits : ℕ → ℕ → ℕ → String → ℕ → String → List ℕ → Option Decision × List ℕ
check_hits second window now key limit role hits =
    let live = drop_expired window now hits in
    if leb limit (length live)
    then (refuse second window now key role limit live, live)
    else (some (admit second window now key role limit live), live ++ (now ∷ []))

unfoldable pub check :
    ℕ → ℕ → String → ℕ → String → SlidingWindowLimiter → Option Decision × SlidingWindowLimiter
unfolding check_hits
check second now key limit role l =
    let (answer, kept) = check_hits second l.window now key limit role (hits_of key l) in
    (answer, record l { hits = insert key kept l.hits })

-- `not v or v[-1] <= cutoff`
unfoldable pub idle : ℕ → ℕ → List ℕ → Bool
idle window now [] = true
idle window now (t ∷ []) = leb (t + window) now
idle window now (t ∷ u ∷ ts) = idle window now (u ∷ ts)

unfoldable pub prune_hits : ℕ → ℕ → Dict (List ℕ) → Dict (List ℕ)
prune_hits window now [] = []
prune_hits window now ((key, ts) ∷ d) =
    let rest = prune_hits window now d in if idle window now ts then rest else (key, ts) ∷ rest

unfoldable pub prune : ℕ → SlidingWindowLimiter → SlidingWindowLimiter
prune now l = record l { hits = prune_hits l.window now l.hits }

unfoldable pub clear : SlidingWindowLimiter → SlidingWindowLimiter
clear l = record l { hits = [] }

abbrev pub tracked_subjects : SlidingWindowLimiter → ℕ
tracked_subjects l = length l.hits
