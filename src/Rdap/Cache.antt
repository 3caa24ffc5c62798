-- ===== src/Rdap/Cache.antt =====
-- internal/rdap/cache.go: what is known of registrations from earlier lookups, in memory.
pub mod Fresh
pub mod Staleness
pub mod Steady
use auto_cert.Base.{
  ℕ, Bool, true, false, Option, none, some, List, [], ◌∷◌, ◌||◌, list_eq, nat_eq, if◌then◌else◌,
  is_some,
}
use auto_cert.Base.Int.{ℤ, pos, lt_ℤ, le_ℤ}
use auto_cert.Base.Text.{Text, to_lower}
use auto_cert.Base.Dict.{Dict, lookup, insert, values}
use auto_cert.Model.{DomainInfo}
use auto_cert.Rdap.Looker.{Looker}
use auto_cert.Time.{Time, zero_time, is_zero, utc, sub, day_ns}

-- `cachedEntry`
pub record CachedEntry : Type 0 where
  pub domain : Text
  pub expires_at : Time
  pub source : Text
  pub checked_at : Time
  pub cached_at : Time

-- `cachedEntry.toInfo`
abbrev pub to_info : CachedEntry → DomainInfo
to_info e = record {
  domain = e.domain;
  expires_at = e.expires_at;
  source = e.source;
  checked_at = e.checked_at;
  err = none;
  is_apex = false;
  fallback_expected = zero_time;
}

-- `memBackend`; the lock shows in that `Get` and `Set` are steps of their own.
pub record MemBackend : Type 0 where
  pub ttl : ℤ
  pub entries : Dict Text CachedEntry
  pub dirty : Bool

-- 7 * 24 hours.
abbrev pub default_ttl : ℤ
default_ttl = pos 604800000000000

-- `newMemBackend`
unfoldable pub new_mem_backend : ℤ → MemBackend
new_mem_backend ttl = record {
  ttl = if le_ℤ ttl (pos 0) then default_ttl else ttl;
  entries = [];
  dirty = false;
}

-- What `Get` makes of the entry that it finds, at the time that `time.Since` reads.
abbrev pub unexpired : Time → ℤ → Option CachedEntry → Option DomainInfo
unexpired now ttl none = none
unexpired now ttl (some e) = if lt_ℤ ttl (sub now e.cached_at) then none else some (to_info e)

-- `memBackend.Get`
unfoldable pub get : Time → Text → MemBackend → Option DomainInfo
unfolding to_lower lookup
get now domain m = unexpired now m.ttl (lookup (to_lower domain) m.entries)

-- The entry that `Set` stores, at the time that `time.Now` reads.
abbrev pub cached_entry : Time → DomainInfo → CachedEntry
cached_entry now info = record {
  domain = info.domain;
  expires_at = info.expires_at;
  source = info.source;
  checked_at = info.checked_at;
  cached_at = utc now;
}

-- What `Set` refuses of the infos that are not nil.
abbrev pub is_refused : DomainInfo → Bool
is_refused info = is_some info.err || is_zero info.expires_at

abbrev store : Time → Text → DomainInfo → MemBackend → MemBackend
store now domain info m = record m {
  entries = insert (to_lower domain) (cached_entry now info) m.entries;
  dirty = true;
}

-- `memBackend.Set`, of an info or nil
unfoldable pub put : Time → Text → Option DomainInfo → MemBackend → MemBackend
unfolding to_lower insert
put now domain none m = m
put now domain (some info) m = if is_refused info then m else store now domain info m

-- `memBackend.snapshot`, in the order of the map's walk.
abbrev pub snapshot : MemBackend → List CachedEntry
snapshot m = values m.entries

-- `memBackend.markClean`
abbrev pub mark_clean : MemBackend → MemBackend
mark_clean m = record m { dirty = false }

-- The methods of `Cache` in memory; `Flush` stands in the file that implements it.
pub record CacheMethods : Type 1 where
  pub State : Type 0
  pub get_at : Time → Text → State → Option DomainInfo
  pub put_at : Time → Text → Option DomainInfo → State → State

-- `NoopCache`
abbrev pub noop_cache : CacheMethods
noop_cache = record {
  State = Unit {0};
  get_at = λ now domain s. none;
  put_at = λ now domain info s. s;
}

-- `*memBackend`
abbrev pub mem_cache : CacheMethods
mem_cache = record { State = MemBackend; get_at = get; put_at = put }

module _ (l : Looker) (c : CacheMethods) where
  -- The end of a `CachedLooker.Lookup` that misses: the inner answer is put into the cache.
  abbrev pub store_answer :
      Time → Text → DomainInfo × l.State → c.State → DomainInfo × (l.State × c.State)
  store_answer stored domain (info, s) m = (info, (s, c.put_at stored domain (some info) m))

  -- The end of `CachedLooker.Lookup`, by what `Get` answered.
  abbrev pub answer_with :
      Time → Text → Option DomainInfo → l.State × c.State → DomainInfo × (l.State × c.State)
  answer_with stored domain none (s, m) = store_answer stored domain (l.look domain s) m
  answer_with stored domain (some info) (s, m) = (info, (s, m))

  -- `CachedLooker.Lookup`, at the times that `Get` and `Set` read.
  unfoldable pub cached_lookup :
      Time → Time → Text → l.State × c.State → DomainInfo × (l.State × c.State)
  cached_lookup asked stored domain (s, m) =
      answer_with stored domain (c.get_at asked domain m) (s, m)

  -- `NewCachedLooker`, with the times at which each domain is looked up.
  abbrev pub cached_looker : (Text → Time) → (Text → Time) → Looker
  cached_looker asked stored = record {
    State = l.State × c.State;
    look = λ domain. cached_lookup (asked domain) (stored domain) domain;
  }
