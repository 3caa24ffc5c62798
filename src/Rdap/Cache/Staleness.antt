-- ===== src/Rdap/Cache/Staleness.antt =====
-- `CachedLooker.Lookup` over the cache in memory, whatever was put into it before.
use mathlib.Core.List.{Mem}
use auto_cert.Base.{◌≡◌, false, List, [], ◌∷◌, ◌++◌, list_eq, nat_eq, if◌then◌else◌}
use auto_cert.Base.Int.{ℤ, pos, lt_ℤ, le_ℤ}
use auto_cert.Base.Text.{Text, to_lower}
use auto_cert.Model.{DomainInfo}
use auto_cert.Rdap.Looker.{Looker}
use auto_cert.Time.{Time, sub, utc}
use auto_cert.Rdap.Cache.{
  MemBackend, new_mem_backend, default_ttl, cached_entry, is_refused, mem_cache, cached_lookup,
  to_info,
}
use auto_cert.Rdap.Cache.Fresh.{Stored, put_all}

-- The lifetime that a cache has.
abbrev pub lifetime : ℤ → ℤ
lifetime ttl = if le_ℤ ttl (pos 0) then default_ttl else ttl

module _ (l : Looker) (ttl : ℤ) (calls : List Stored) (asked stored : Time) (domain : Text)
    (s : l.State) where
  abbrev before : MemBackend
  before = put_all calls (new_mem_backend ttl)

  abbrev looked_up : DomainInfo × (l.State × MemBackend)
  looked_up = cached_lookup l mem_cache asked stored domain (s, before)

  -- The answer is that of the inner lookup, which is then put into the cache.
  pub record Missed : Type 0 where
    pub answered : looked_up.0 ≡ (l.look domain s).0
    pub looked : looked_up.1.0 ≡ (l.look domain s).1
    pub remembered :
        looked_up.1.1
        ≡ put_all
            (calls ++ record { at = stored; domain = domain; info = (l.look domain s).0 } ∷ [])
            (new_mem_backend ttl)

  -- The answer is what an earlier call put there for the name, and not too long ago; there was no
  -- inner lookup.
  pub record Hit : Type 0 where
    pub call : Stored
    pub made : Mem call calls
    pub same_name : to_lower call.domain ≡ to_lower domain
    pub worth : is_refused call.info ≡ false
    pub recent : lt_ℤ (lifetime ttl) (sub asked (utc call.at)) ≡ false
    pub answered : looked_up.0 ≡ to_info (cached_entry call.at call.info)
    pub unchanged : looked_up.1 ≡ (s, before)
