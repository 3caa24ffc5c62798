-- ===== src/Rdap/FileCache/Reload.antt =====
-- The cache of a run that was flushed, as the next run finds it.
use mathlib.Core.List.Perm
use native.Mathlib.Decide.{ℕ_discrete}
use auto_cert.Base.{
  ◌≡◌, refl, sym, ap, ◌∙◌, subst, true, false, none, some, List, [], ◌∷◌, list_eq, nat_eq, arith,
  inl, inr, Bool-cases, All,
}
use auto_cert.Base.Int.{ℤ, int_eq}
use auto_cert.Base.Text.{Text, to_lower}
use auto_cert.Base.Dict.{lookup, insert, values, NodupKeys, insert-NodupKeys}
use auto_cert.Base.Dict.Fill.{
  IsKeyed, fill-IsKeyed, fill-NodupKeys, insert-IsKeyed, lookup-fill_nil, last_of-perm,
  last_of-values, values-KeysApart,
}
use auto_cert.Base.Codec.{Codec, IsFaithful}
use auto_cert.Base.Result.{Result, ok, err, ok-ne-err}
use auto_cert.Base.Sort.Laws.{sort_slice-perm}
use auto_cert.Files.{Disk, Os, Read, contents, absent, failed, read_file}
use auto_cert.Time.{Time}
use auto_cert.Rdap.Cache.{
  MemBackend, CachedEntry, new_mem_backend, get, put, unexpired, cached_entry, is_refused,
}
use auto_cert.Rdap.Cache.Fresh.{Stored, put_all, put-refused, put-worth, put_all-ttl}
use auto_cert.Rdap.FileCache.{
  less_entry, new_file_cache, loaded_from, of_parsed, fill_entries, flush,
}
use auto_cert.Rdap.FileCache.Flush.{flush_atomic, sorted_entries}

abbrev own : CachedEntry → Text
own e = e.domain

-- Every entry stands under its own domain, and once.
pub record IsFiled (m : MemBackend) : Type 0 where
  pub keyed : IsKeyed own m.entries
  pub nodup : NodupKeys m.entries

-- The calls that the enrichment makes: the answer names the domain that was asked for, which is in
-- lower case.
abbrev pub IsPlain : Stored → Type 0
IsPlain s = to_lower s.domain ≡ s.info.domain

put-IsFiled :
    (s : Stored) (m : MemBackend)
    → IsPlain s
    → IsFiled m
    → IsFiled (put s.at s.domain (some s.info) m)
put-IsFiled s m plain f = elim (Bool-cases (is_refused s.info)) [
  | inl h ↦ subst IsFiled (sym (put-refused s m h)) f
  | inr h ↦ subst IsFiled (sym (put-worth s m h)) (record {
    keyed =
        subst (λ k. IsKeyed own (insert k (cached_entry s.at s.info) m.entries)) (sym plain)
          (insert-IsKeyed own (cached_entry s.at s.info) m.entries f.keyed);
    nodup = insert-NodupKeys (to_lower s.domain) (cached_entry s.at s.info) m.entries f.nodup;
  })
]

put_all-IsFiled :
    (calls : List Stored) (m : MemBackend)
    → All IsPlain calls
    → IsFiled m
    → IsFiled (put_all calls m)
unfolding put_all
put_all-IsFiled [] m plain f = f
put_all-IsFiled (s ∷ later) m plain f = put_all-IsFiled later _ plain.1 (put-IsFiled s m plain.0 f)

new_mem_backend-IsFiled : (ttl : ℤ) → IsFiled (new_mem_backend ttl)
unfolding new_mem_backend
new_mem_backend-IsFiled ttl = record { keyed = tt; nodup = tt }

fill_entries-IsFiled :
    (es : List CachedEntry) (m : MemBackend) → IsFiled m → IsFiled (fill_entries es m)
unfolding fill_entries
fill_entries-IsFiled es m f = record {
  keyed = fill-IsKeyed own es m.entries f.keyed;
  nodup = fill-NodupKeys own (λ e. e) es m.entries f.nodup;
}

put_all-dirty :
    (calls : List Stored) (m : MemBackend) → m.dirty ≡ true → (put_all calls m).dirty ≡ true
unfolding put_all
put_all-dirty [] m h = h
put_all-dirty (s ∷ later) m h = elim (Bool-cases (is_refused s.info)) [
  | inl k ↦ put_all-dirty later _ (ap (λ (n : MemBackend). n.dirty) (put-refused s m k) ∙ h)
  | inr k ↦ put_all-dirty later _ (ap (λ (n : MemBackend). n.dirty) (put-worth s m k))
]

-- A cache that is still clean is as it was.
put_all-clean :
    (calls : List Stored) (m : MemBackend) → (put_all calls m).dirty ≡ false → put_all calls m ≡ m
unfolding put_all
put_all-clean [] m h = refl
put_all-clean (s ∷ later) m h = elim (Bool-cases (is_refused s.info)) [
  | inl k ↦ put_all-clean later (put s.at s.domain (some s.info) m) h ∙ put-refused s m k
  | inr k ↦ cc (
      put_all-dirty later (put s.at s.domain (some s.info) m)
        (ap (λ (n : MemBackend). n.dirty) (put-worth s m k)))
]

Time-discrete : Discrete Time
Time-discrete = hlevel ℕ_discrete

CachedEntry-set : IsSet CachedEntry
CachedEntry-set = hlevel

fill_entries-ttl : (es : List CachedEntry) (m : MemBackend) → (fill_entries es m).ttl ≡ m.ttl
unfolding fill_entries
fill_entries-ttl es m = refl

-- The sorted entries, filled into an empty map, answer as the map that they were taken from.
lookup-sorted_entries :
    (k : Text) (ttl : ℤ) (m : MemBackend)
    → IsFiled m
    → lookup k (fill_entries (sorted_entries m) (new_mem_backend ttl)).entries ≡ lookup k m.entries
unfolding fill_entries new_mem_backend
lookup-sorted_entries k ttl m f =
    lookup-fill_nil own (λ e. e) k (sorted_entries m)
    ∙ sym (
        last_of-perm own k (values m.entries) (sorted_entries m)
          (values-KeysApart own CachedEntry-set m.entries f.keyed f.nodup)
          (Perm.symm (sort_slice-perm less_entry (values m.entries))))
    ∙ last_of-values own k m.entries f.keyed f.nodup

module _ (json : Codec (List CachedEntry)) (path : Text) (ttl : ℤ) where
  of_parsed-IsFiled :
      (r : Result (List CachedEntry)) → IsFiled (of_parsed json path (new_mem_backend ttl) r)
  of_parsed-IsFiled (err e) = new_mem_backend-IsFiled ttl
  of_parsed-IsFiled (ok es) = fill_entries-IsFiled es _ (new_mem_backend-IsFiled ttl)

  of_parsed-ttl :
      (r : Result (List CachedEntry))
      → (of_parsed json path (new_mem_backend ttl) r).ttl ≡ (new_mem_backend ttl).ttl
  of_parsed-ttl (err e) = refl
  of_parsed-ttl (ok es) = fill_entries-ttl es (new_mem_backend ttl)

  loaded_from-IsFiled : (r : Read) → IsFiled (loaded_from json path (new_mem_backend ttl) r)
  loaded_from-IsFiled absent = new_mem_backend-IsFiled ttl
  loaded_from-IsFiled (failed e) = new_mem_backend-IsFiled ttl
  loaded_from-IsFiled (contents text) = of_parsed-IsFiled (json.unmarshal text)

  loaded_from-ttl :
      (r : Read) → (loaded_from json path (new_mem_backend ttl) r).ttl ≡ (new_mem_backend ttl).ttl
  loaded_from-ttl absent = refl
  loaded_from-ttl (failed e) = refl
  loaded_from-ttl (contents text) = of_parsed-ttl (json.unmarshal text)

  new_file_cache-IsFiled : (os : Os) (disk : Disk) → IsFiled (new_file_cache json path ttl os disk)
  unfolding new_file_cache
  new_file_cache-IsFiled os disk = loaded_from-IsFiled (read_file os path disk)

  new_file_cache-ttl :
      (os : Os) (disk : Disk)
      → (new_file_cache json path ttl os disk).ttl ≡ (new_mem_backend ttl).ttl
  unfolding new_file_cache
  new_file_cache-ttl os disk = loaded_from-ttl (read_file os path disk)

  new_file_cache-healthy :
      (os os' : Os) (disk : Disk)
      → os.read_error ≡ none
      → os'.read_error ≡ none
      → new_file_cache json path ttl os' disk ≡ new_file_cache json path ttl os disk
  unfolding new_file_cache read_file
  new_file_cache-healthy os os' disk h h' = ground arith

  new_file_cache-stored :
      (os : Os) (disk : Disk) {text : Text} {es : List CachedEntry}
      → os.read_error ≡ none
      → lookup path disk ≡ some text
      → json.unmarshal text ≡ ok es
      → new_file_cache json path ttl os disk ≡ fill_entries es (new_mem_backend ttl)
  unfolding new_file_cache read_file
  new_file_cache-stored os disk h at parsed = ground arith

  module _ (calls : List Stored) (plain : All IsPlain calls) (os : Os) (disk : Disk) where
    -- The cache at the end of a run.
    abbrev pub at_end : MemBackend
    at_end = put_all calls (new_file_cache json path ttl os disk)

    at_end-ttl : at_end.ttl ≡ (new_mem_backend ttl).ttl
    at_end-ttl =
        put_all-ttl calls (new_file_cache json path ttl os disk) ∙ new_file_cache-ttl os disk

    get_same :
        (now : Time) (domain : Text) (n : MemBackend)
        → n.ttl ≡ (new_mem_backend ttl).ttl
        → lookup (to_lower domain) n.entries ≡ lookup (to_lower domain) at_end.entries
        → get now domain n ≡ get now domain at_end
    unfolding get
    get_same now domain n same_ttl same =
        ap (λ t. unexpired now t (lookup (to_lower domain) n.entries)) (same_ttl ∙ sym at_end-ttl)
        ∙ ap (unexpired now at_end.ttl) same

    -- A run whose cache was loaded and flushed without an error hands it on: the next run, with the
    -- same lifetime, answers every question from it as this run would have at that time.
    pub get_next_run :
        (os' os'' : Os) (now : Time) (domain : Text)
        → IsFaithful json
        → os.read_error ≡ none
        → (flush json path os' at_end disk).0 ≡ ok tt
        → os''.read_error ≡ none
        → get now domain (new_file_cache json path ttl os'' (flush json path os' at_end disk).1.1)
          ≡ get now domain at_end
    get_next_run os' os'' now domain f read done reads =
        elim (flush_atomic json path os' at_end disk).0 [
          | inl skipped ↦
              ap (λ p. get now domain (new_file_cache json path ttl os'' p.1.1)) skipped.same
              ∙ ap (get now domain) (
                  new_file_cache-healthy os os'' disk read reads
                  ∙ sym (put_all-clean calls (new_file_cache json path ttl os disk) skipped.clean))
          | inr (inl w) ↦
              let same =
                new_file_cache-stored os'' (flush json path os' at_end disk).1.1 reads w.stored
                  (f.unmarshal-marshal (sorted_entries at_end) w.text w.marshalled) in
              ap (get now domain) same
              ∙ get_same now domain (fill_entries (sorted_entries at_end) (new_mem_backend ttl))
                  (fill_entries-ttl (sorted_entries at_end) (new_mem_backend ttl))
                  (lookup-sorted_entries (to_lower domain) ttl at_end
                    (put_all-IsFiled calls _ plain (new_file_cache-IsFiled os disk)))
          | inr (inr kept) ↦ absurd (ok-ne-err (sym done ∙ kept.failed_with))
        ]
