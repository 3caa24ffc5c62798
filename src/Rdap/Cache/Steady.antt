-- ===== src/Rdap/Cache/Steady.antt =====
-- A cache in front of a steady looker is steady: names that differ do not meet in it.
use auto_cert.Base.{
  ◌≡◌, ◌≢◌, refl, sym, ap, ◌∙◌, Option, none, some, true, false, Bool-cases, inl, inr, list_eq,
  nat_eq,
}
use auto_cert.Base.Text.{Text, to_lower}
use auto_cert.Base.Dict.{lookup-insert_ne}
use auto_cert.Model.{DomainInfo}
use auto_cert.Time.{Time}
use auto_cert.Rdap.Looker.{Looker, IsSteady}
use auto_cert.Rdap.Cache.{
  MemBackend, get, put, cached_entry, is_refused, unexpired, mem_cache, noop_cache, cached_lookup,
  cached_looker, answer_with, CacheMethods,
}

get-put_refused :
    (now at : Time) (a b : Text) (info : DomainInfo) (m : MemBackend)
    → is_refused info ≡ true
    → get now a (put at b (some info) m) ≡ get now a m
unfolding put
get-put_refused now at a b info m h = rw h

get-put_stored :
    (now at : Time) (a b : Text) (info : DomainInfo) (m : MemBackend)
    → is_refused info ≡ false
    → to_lower a ≢ to_lower b
    → get now a (put at b (some info) m) ≡ get now a m
unfolding get put
get-put_stored now at a b info m h apart =
    rw h (ap (unexpired now m.ttl) (lookup-insert_ne (cached_entry at info) m.entries apart))

-- What is put under another name does not show.
get-put :
    (now at : Time) (a b : Text) (info : DomainInfo) (m : MemBackend)
    → to_lower a ≢ to_lower b
    → get now a (put at b (some info) m) ≡ get now a m
get-put now at a b info m apart = elim (Bool-cases (is_refused info)) [
  | inl h ↦ get-put_refused now at a b info m h
  | inr h ↦ get-put_stored now at a b info m h apart
]

-- The methods of a cache in which names in lower case that differ do not meet.
record KeepsApart (c : CacheMethods) : Type 0 where
  pub get_put :
      (now at : Time) (a b : Text) (info : DomainInfo) (m : c.State)
      → to_lower a ≡ a
      → to_lower b ≡ b
      → a ≢ b
      → c.get_at now a (c.put_at at b (some info) m) ≡ c.get_at now a m

mem_cache-KeepsApart : KeepsApart mem_cache
mem_cache-KeepsApart = record {
  get_put =
      λ now at a b info m la lb apart. get-put now at a b info m (λ e. apart (sym la ∙ e ∙ lb));
}

noop_cache-KeepsApart : KeepsApart noop_cache
noop_cache-KeepsApart = record { get_put = λ now at a b info m la lb apart. refl }

module _ (l : Looker) (c : CacheMethods) (k : KeepsApart c) (steady : IsSteady l) where
  answer_with-look :
      (stored : Time) (a : Text) (o : Option DomainInfo) (s s' : l.State) (m m' : c.State)
      → (l.look a s').0 ≡ (l.look a s).0
      → (answer_with l c stored a o (s', m')).0 ≡ (answer_with l c stored a o (s, m)).0
  answer_with-look stored a none s s' m m' h = h
  answer_with-look stored a (some info) s s' m m' h = refl

  after_other :
      (asked stored stored' : Time) (a b : Text) (o : Option DomainInfo) (s : l.State) (m : c.State)
      → to_lower a ≡ a
      → to_lower b ≡ b
      → a ≢ b
      → (cached_lookup l c asked stored a (answer_with l c stored' b o (s, m)).1).0
        ≡ (cached_lookup l c asked stored a (s, m)).0
  unfolding cached_lookup
  after_other asked stored stored' a b (some info) s m la lb apart = refl
  after_other asked stored stored' a b none s m la lb apart =
      ap
        (λ o.
          (answer_with l c stored a o
            ((l.look b s).1, c.put_at stored' b (some (l.look b s).0) m)).0)
        (k.get_put asked stored' a b (l.look b s).0 m la lb apart)
      ∙ answer_with-look stored a (c.get_at asked a m) s (l.look b s).1 m
          (c.put_at stored' b (some (l.look b s).0) m) (steady.steady a b s la lb apart)

  cached_looker-IsSteady : (asked stored : Text → Time) → IsSteady (cached_looker l c asked stored)
  unfolding cached_lookup
  cached_looker-IsSteady asked stored = record {
    steady = λ a b (s, m) la lb apart.
        after_other (asked a) (stored a) (stored b) a b (c.get_at (asked b) b m) s m la lb apart;
  }

module _ (l : Looker) (steady : IsSteady l) (asked stored : Text → Time) where
  pub mem_cache-IsSteady : IsSteady (cached_looker l mem_cache asked stored)
  mem_cache-IsSteady = cached_looker-IsSteady l mem_cache mem_cache-KeepsApart steady asked stored

  pub noop_cache-IsSteady : IsSteady (cached_looker l noop_cache asked stored)
  noop_cache-IsSteady =
      cached_looker-IsSteady l noop_cache noop_cache-KeepsApart steady asked stored
