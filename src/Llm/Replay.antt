-- ===== src/Llm/Replay.antt =====
-- What the response cache of the service answers.
use text.Mathlib.Text.{◌==◌ as str_eq}
use defect_sense.Prelude.{
  ◌⊎◌, List, All, ℕ, ◌+◌, ◌-◌, ◌*◌, ◌/◌, ◌≡◌, refl, sym, ap, ◌∙◌, String, true, false, Option, none,
  some, [], ◌∷◌, ◌++◌, arith, ltb, Bool-cases, inl, inr, if◌then◌else◌, some_inj,
}
use defect_sense.Dict.{lookup, remove, lookup-insert, lookup-remove, eq_iff}
use defect_sense.Enums.{cache_served}
use defect_sense.Llm.{GenerationRequest, Completion, TierConfig, tier}
use defect_sense.Llm.Cache.{ResponseCache, CacheEntry, key, get, get_entry, put}
use defect_sense.Llm.Chain.{World, Stage, run_chain, tiers_from}
use defect_sense.Llm.Service.{
  LlmService, Outcome, answered, stage_of, finish, run_declared, generate_missed, generate,
}
use defect_sense.Llm.Attribution.{answered_inj, cached-from_cache}

-- The entry under a key, after it is put there.
lookup-put :
    (digest : String → String) (now : ℕ) (r r' : GenerationRequest) (a : Completion)
    (c : ResponseCache)
    → key digest r' ≡ key digest r
    → lookup (key digest r') (put digest now r a c).entries
      ≡ some (record { completion = a; stored_at = now })
unfolding put
lookup-put digest now r r' a c same =
    rw
      (
        same,
        lookup-insert (key digest r) (key digest r) (record { completion = a; stored_at = now })
            c.entries,
        (eq_iff (key digest r) (key digest r)).1 refl,
      )
      refl

module _ (w : World) (r : GenerationRequest) where
  -- What a fresh answer leaves in the cache.
  record IsStored (later : ℕ) (s s' : LlmService) (a : Completion) : Type 0 where
    before : ResponseCache
    stored : s'.cache ≡ some (put w.digest later r a before)
    kept : s'.config ≡ s.config

  finish-IsStored :
      (later : ℕ) (s s' : LlmService) (c : ResponseCache) (a : Completion) (k : Option TierConfig)
      → s.cache ≡ some c
      → run_declared w later r s k ≡ (answered a, s')
      → IsStored later s s' a
  finish-IsStored later s s' c a none h e = absurd (ground arith)
  finish-IsStored later s s' c a (some k) h e =
      ended (run_chain w s.config s.probed r (tiers_from r.tier) (stage_of s)) e
    where
      ended :
          (x : Option Completion × Stage)
          → finish w later r s x ≡ (answered a, s')
          → IsStored later s s' a
      ended (none, stage) e = absurd (ground arith)
      ended (some d, stage) e = record {
        before = c;
        stored =
            ap (λ (z : Outcome × LlmService). z.1.cache) (sym e)
            ∙ rw h (
                ap (λ (d : Completion). some (put w.digest later r d c))
                  (answered_inj (ap (λ (z : Outcome × LlmService). z.0) e)));
        kept = ap (λ (z : Outcome × LlmService). z.1.config) (sym e);
      }

  generate-IsStored :
      (now later : ℕ) (s s' : LlmService) (c : ResponseCache) (a : Completion)
      → s.cache ≡ some c
      → generate w now later r s ≡ (answered a, s')
      → a.from_cache ≡ false
      → IsStored later s s' a
  unfolding generate
  generate-IsStored now later s s' c a h e live =
      looked_up (get w.digest w.second now r c) refl (rw h at e)
    where
      false_true : false ≡ true → ⊥
      false_true k = cc

      looked_up :
          (x : Option Completion × ResponseCache)
          → get w.digest w.second now r c ≡ x
          → generate_missed w later r s (x.0, some x.1) ≡ (answered a, s')
          → IsStored later s s' a
      looked_up (some hit, c') found e' =
          let same : a ≡ hit = answered_inj (ap (λ (z : Outcome × LlmService). z.0) (sym e')) in
          let stale : hit.from_cache ≡ true =
            cached-from_cache w r now (some c) hit
              (ap (λ (z : Option Completion × ResponseCache). z.0) found) in
          absurd (false_true (sym live ∙ ap (λ (k : Completion). k.from_cache) same ∙ stale))
      looked_up (none, c') found e' =
          let stored =
            finish-IsStored later (record s { cache = some c' }) s' c' a (tier s.config r.tier) refl
              e' in
          record { before = stored.before; stored = stored.stored; kept = stored.kept }

module _ (w : World) (k : String) (entry : CacheEntry) (ttl : ℕ) where
  -- The cache of the service has the entry under the key.
  abbrev pub Holds : LlmService → Type 0
  Holds s =
      (c : ResponseCache) × (s.cache ≡ some c) × (lookup k c.entries ≡ some entry) × (c.ttl ≡ ttl)

  -- A request, with its two readings of the clock, that leaves the entry: one of another key, or one
  -- that comes while the entry is not older than the time to live.
  abbrev pub Leaves : ℕ × ℕ × GenerationRequest → Type 0
  Leaves (now, later, q) =
      (str_eq (key w.digest q) k ≡ false) ⊎ (ltb (ttl * w.second) (now - entry.stored_at) ≡ false)

  get-other :
      (now : ℕ) (q : GenerationRequest) (c : ResponseCache) (o : Option CacheEntry)
      → str_eq (key w.digest q) k ≡ false
      → let c' = (get_entry w.digest w.second now (key w.digest q) o c).1 in
        (lookup k c'.entries ≡ lookup k c.entries) × (c'.ttl ≡ c.ttl)
  get-other now q c none other = (refl, refl)
  get-other now q c (some e) other =
      elim (Bool-cases (ltb (c.ttl * w.second) (now - e.stored_at))) [
        | inl old ↦ rw old (lookup-remove (key w.digest q) k c.entries ∙ rw other refl, refl)
        | inr young ↦ rw young (refl, refl)
      ]

  finish-Holds :
      (later : ℕ) (q : GenerationRequest) (s : LlmService) (x : Option Completion × Stage)
      → str_eq (key w.digest q) k ≡ false
      → Holds s
      → Holds (finish w later q s x).1
  unfolding put
  finish-Holds later q s (none, stage) other h = h
  finish-Holds later q s (some a, stage) other (c, at_cache, found, same) =
      rw at_cache (_, refl, lookup-insert (key w.digest q) k _ c.entries ∙ rw other found, same)

  missed-Holds :
      (later : ℕ) (q : GenerationRequest) (s : LlmService)
      (x : Option Completion × Option ResponseCache)
      → str_eq (key w.digest q) k ≡ false
      → Holds (record s { cache = x.1 })
      → Holds (generate_missed w later q s x).1
  missed-Holds later q s (some hit, cache) other h = h
  missed-Holds later q s (none, cache) other h = declared (tier s.config q.tier)
    where
      declared :
          (t : Option TierConfig) → Holds (run_declared w later q (record s { cache = cache }) t).1
      declared none = h
      declared (some t) = finish-Holds later q (record s { cache = cache }) _ other h

  generate-Holds :
      (now later : ℕ) (q : GenerationRequest) (s : LlmService)
      → Leaves (now, later, q)
      → Holds s
      → Holds (generate w now later q s).1
  unfolding generate get
  generate-Holds now later q s leaves (c, at_cache, found, same) =
      elim (Bool-cases (str_eq (key w.digest q) k)) [
        | inr other ↦
            let (kept, kept_ttl) = get-other now q c (lookup (key w.digest q) c.entries) other in
            rw at_cache (missed-Holds later q s _ other (_, refl, kept ∙ found, kept_ttl ∙ same))
        | inl mine ↦
            let young : ltb (c.ttl * w.second) (now - entry.stored_at) ≡ false =
              ground (arith, leaves, mine, same) in
            rw (at_cache, (eq_iff (key w.digest q) k).0 mine, found, young) (_, refl, found, same)
      ]

-- The service after some requests.
unfoldable pub after_all : World → List (ℕ × ℕ × GenerationRequest) → LlmService → LlmService
after_all w [] s = s
after_all w ((now, later, q) ∷ qs) s = after_all w qs (generate w now later q s).1

after_all-Holds :
    (w : World) (k : String) (entry : CacheEntry) (ttl : ℕ) (qs : List (ℕ × ℕ × GenerationRequest))
    (s : LlmService)
    → All (Leaves w k entry ttl) qs
    → Holds w k entry ttl s
    → Holds w k entry ttl (after_all w qs s)
unfolding after_all
after_all-Holds w k entry ttl [] s leave h = h
after_all-Holds w k entry ttl ((now, later, q) ∷ qs) s (l, leave) h =
    after_all-Holds w k entry ttl qs (generate w now later q s).1 leave
      (generate-Holds w k entry ttl now later q s l h)

module _ (w : World) (r : GenerationRequest) where
  -- With a cache, the answer to a request is the answer to each later request with the same key, with
  -- the note that it was served from the cache, its age in whole seconds and one hit more: no provider
  -- is asked and no breaker moves. Once it is older than the time to live it is dropped, counted as a
  -- miss, and the request is generated anew. Any other requests may come in between, but for one with
  -- the same key after the time to live, which replaces the answer.
  pub cache_replays :
      (now later now' later' : ℕ) (s s' : LlmService) (r' : GenerationRequest) (a : Completion)
      (c c' c'' : ResponseCache) (between : List (ℕ × ℕ × GenerationRequest))
      → s.cache ≡ some c
      → generate w now later r s ≡ (answered a, s')
      → a.from_cache ≡ false
      → key w.digest r' ≡ key w.digest r
      → s'.cache ≡ some c'
      → All
          (Leaves w (key w.digest r) (record { completion = a; stored_at = later }) c'.ttl)
          between
      → let s'' = after_all w between s' in
        s''.cache ≡ some c''
        → generate w now' later' r' s'' ≡ (
            if ltb (c''.ttl * w.second) (now' - later)
            then run_declared w later' r'
                (record s'' {
                  cache = some (record c'' {
                    misses = c''.misses + 1;
                    entries = remove (key w.digest r') c''.entries;
                  });
                })
                (tier s''.config r'.tier)
            else (
              answered (record a {
                from_cache = true;
                cache_age_seconds = some ((now' - later) / w.second);
                degradations = a.degradations ++ (cache_served ∷ []);
              }),
              record s'' { cache = some (record c'' { hits = c''.hits + 1 }) },
            ))
  unfolding generate get
  cache_replays now later now' later' s s' r' a c c' c'' between h e live same h' leave h'' =
      let stored = generate-IsStored w r now later s s' c a h e live in
      let held : put w.digest later r a stored.before ≡ c' = some_inj (sym stored.stored ∙ h') in
      let there : lookup (key w.digest r) c'.entries
          ≡ some (record { completion = a; stored_at = later }) =
        ap (λ (k : ResponseCache). lookup (key w.digest r) k.entries) (sym held)
        ∙ lookup-put w.digest later r r a stored.before refl in
      let (d, at_d, still, lives) =
        after_all-Holds w (key w.digest r) (record { completion = a; stored_at = later }) c'.ttl
          between s' leave (c', h', there, refl) in
      let last : d ≡ c'' = some_inj (sym at_d ∙ h'') in
      let found : lookup (key w.digest r') c''.entries
          ≡ some (record { completion = a; stored_at = later }) =
        rw same
          (ap (λ (k : ResponseCache). lookup (key w.digest r) k.entries) (sym last) ∙ still) in
      rw (h'', found)
        (elim (Bool-cases (ltb (c''.ttl * w.second) (now' - later))) [
          | inl old ↦ rw old refl
          | inr young ↦ rw young refl
        ])
