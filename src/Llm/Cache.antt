-- ===== src/Llm/Cache.antt =====
-- `ResponseCache` of src/forge/infrastructure/llm/service.py. Times are readings of the wall clock in
-- ticks, of which a second has `second`; the clock is taken not to go back.
use Prim.Native.String
use defect_sense.Prelude.{
  ℕ, ◌+◌, ◌-◌, ◌*◌, ◌/◌, String, true, Option, none, some, List, [], ◌∷◌, ◌++◌, ltb, if◌then◌else◌,
}
use defect_sense.Dict.{Dict, lookup, insert, remove}
use defect_sense.Enums.{cache_served}
use defect_sense.Llm.{tier_value, Message, GenerationRequest, Completion}

pub record CacheEntry : Type 0 where
  pub completion : Completion
  pub stored_at : ℕ

pub record ResponseCache : Type 0 where
  pub ttl : ℕ
  pub entries : Dict CacheEntry
  pub hits : ℕ
  pub misses : ℕ

abbrev pub empty_cache : ℕ → ResponseCache
empty_cache ttl_seconds = record { ttl = ttl_seconds; entries = []; hits = 0; misses = 0 }

-- "\n".join(f"{m.role}:{m.content}" for m in messages)
abbrev pub joined : List Message → String
joined [] = ""
joined (m ∷ []) = String.◌++◌ m.role (String.◌++◌ ":" m.content)
joined (m ∷ n ∷ ms) =
    String.◌++◌ m.role
      (String.◌++◌ ":" (String.◌++◌ m.content (String.◌++◌ "\n" (joined (n ∷ ms)))))

module _ (digest : String → String) where
  -- `digest` is the first half of the sha256 of a text, in hexadecimal.
  unfoldable pub key : GenerationRequest → String
  key r =
      String.◌++◌ (tier_value r.tier)
        (String.◌++◌ ":" (String.◌++◌ r.pack_id (String.◌++◌ ":" (digest (joined r.messages)))))

  abbrev pub served : ℕ → ℕ → CacheEntry → Completion
  served second now entry = record entry.completion {
    from_cache = true;
    cache_age_seconds = some ((now - entry.stored_at) / second);
    degradations = entry.completion.degradations ++ (cache_served ∷ []);
  }

  abbrev pub missed : ResponseCache → ResponseCache
  missed c = record c { misses = c.misses + 1 }

  abbrev pub get_entry :
      ℕ → ℕ → String → Option CacheEntry → ResponseCache → Option Completion × ResponseCache
  get_entry second now k none c = (none, missed c)
  get_entry second now k (some entry) c =
      if ltb (c.ttl * second) (now - entry.stored_at)
      then (none, missed (record c { entries = remove k c.entries }))
      else (some (served second now entry), record c { hits = c.hits + 1 })

  unfoldable pub get : ℕ → ℕ → GenerationRequest → ResponseCache → Option Completion × ResponseCache
  get second now r c = get_entry second now (key r) (lookup (key r) c.entries) c

  unfoldable pub put : ℕ → GenerationRequest → Completion → ResponseCache → ResponseCache
  put now r completion c = record c {
    entries = insert (key r) (record { completion = completion; stored_at = now }) c.entries;
  }
