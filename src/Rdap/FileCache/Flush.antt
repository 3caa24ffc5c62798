-- ===== src/Rdap/FileCache/Flush.antt =====
-- `Flush`: nothing without a change, the whole file or none of it otherwise.
use auto_cert.Base.{
  ◌≡◌, refl, ap, ◌∙◌, true, false, some, List, ◌++◌, list_eq, nat_eq, inl, inr, ◌⊎◌, Bool-cases,
  ◌≢◌,
}
use auto_cert.Base.Text.{Text, codes}
use auto_cert.Base.Dict.{lookup}
use auto_cert.Base.Codec.{Codec}
use auto_cert.Base.Result.{Result, ok, err, Result-cases}
use auto_cert.Base.Sort.{sort_slice}
use auto_cert.Files.{Disk, Os, mkdir_all, write_rename, tmp_of}
use auto_cert.Files.Atomic.{write_rename_atomic}
use auto_cert.Rdap.Cache.{MemBackend, CachedEntry, snapshot, mark_clean}
use auto_cert.Rdap.FileCache.{less_entry, flush, write_entries, finish, on_write, on_rename}

-- What `Flush` writes.
abbrev pub sorted_entries : MemBackend → List CachedEntry
sorted_entries m = sort_slice less_entry (snapshot m)

module _ (json : Codec (List CachedEntry)) (path : Text) (os : Os) (m : MemBackend)
    (disk : Disk) where
  abbrev pub flushed : Result (Unit {0}) × (MemBackend × Disk)
  flushed = flush json path os m disk

  -- Nothing was to be written, and nothing was.
  pub record Skipped : Type 0 where
    pub clean : m.dirty ≡ false
    pub same : flushed ≡ (ok tt, (m, disk))

  -- The file holds the entries, and the cache counts as clean.
  pub record Written : Type 0 where
    pub text : Text
    pub dirty : m.dirty ≡ true
    pub marshalled : json.marshal (sorted_entries m) ≡ ok text
    pub succeeded : flushed.0 ≡ ok tt
    pub cleaned : flushed.1.0 ≡ mark_clean m
    pub stored : lookup path flushed.1.1 ≡ some text

  -- The flush stopped with an error: the cache still counts as dirty, the file holds what it held.
  pub record Kept : Type 0 where
    pub message : Text
    pub dirty : m.dirty ≡ true
    pub failed_with : flushed.0 ≡ err message
    pub unflushed : flushed.1.0 ≡ m
    pub unchanged : lookup path flushed.1.1 ≡ lookup path disk

  abbrev pub Untouched : Type 0
  Untouched =
      (other : Text)
      → other ≢ path
      → other ≢ tmp_of path
      → lookup other flushed.1.1 ≡ lookup other disk

  flush-clean : m.dirty ≡ false → flushed ≡ (ok tt, (m, disk))
  unfolding flush
  flush-clean h = rw h

  flush-dirty :
      m.dirty ≡ true → flushed ≡ write_entries json path (json.marshal (sorted_entries m)) os m disk
  unfolding flush
  flush-dirty h = rw h

  abbrev replaced : Text → Result (Unit {0}) × Disk
  replaced text = write_rename (on_write json path) (on_rename json path) os path text disk

  flush-marshal_failed :
      {e : Text}
      → m.dirty ≡ true
      → json.marshal (sorted_entries m) ≡ err e
      → flushed ≡ (err (codes "rdap cache marshal: " ++ e), (m, disk))
  flush-marshal_failed h k = flush-dirty h ∙ rw k

  flush-mkdir_failed :
      {text e : Text}
      → m.dirty ≡ true
      → json.marshal (sorted_entries m) ≡ ok text
      → mkdir_all os ≡ err e
      → flushed ≡ (err (codes "rdap cache mkdir: " ++ e), (m, disk))
  flush-mkdir_failed h k l = flush-dirty h ∙ rw (k, write_entries) (rw l)

  flush-replaced :
      {text : Text} {u : Unit {0}}
      → m.dirty ≡ true
      → json.marshal (sorted_entries m) ≡ ok text
      → mkdir_all os ≡ ok u
      → flushed ≡ finish json path m (replaced text)
  flush-replaced h k l = flush-dirty h ∙ rw (k, write_entries) (rw l)

  finish-disk : (r : Result (Unit {0}) × Disk) → (finish json path m r).1.1 ≡ r.1
  finish-disk (ok u, d) = refl
  finish-disk (err e, d) = refl

  finish-ok :
      (r : Result (Unit {0}) × Disk)
      → r.0 ≡ ok tt
      → ((finish json path m r).0 ≡ ok tt) × ((finish json path m r).1.0 ≡ mark_clean m)
  finish-ok (ok u, d) h = (refl, refl)
  finish-ok (err e, d) h = cc

  finish-err :
      (r : Result (Unit {0}) × Disk) {e : Text}
      → r.0 ≡ err e
      → ((finish json path m r).0 ≡ err e) × ((finish json path m r).1.0 ≡ m)
  finish-err (ok u, d) h = cc
  finish-err (err e, d) h = (h, refl)

  stopped :
      {e : Text}
      → m.dirty ≡ true
      → flushed ≡ (err e, (m, disk))
      → (Skipped ⊎ Written ⊎ Kept) × Untouched
  stopped {e} h same = (
    inr (
        inr (record {
          message = e;
          dirty = h;
          failed_with = ap (λ p. p.0) same;
          unflushed = ap (λ p. p.1.0) same;
          unchanged = ap (λ p. lookup path p.1.1) same;
        })),
    λ other _ _. ap (λ p. lookup other p.1.1) same,
  )

  flush_outcome_replaced :
      {text : Text} {u : Unit {0}}
      → m.dirty ≡ true
      → json.marshal (sorted_entries m) ≡ ok text
      → mkdir_all os ≡ ok u
      → (Skipped ⊎ Written ⊎ Kept) × Untouched
  flush_outcome_replaced {text} h k l =
      let same = flush-replaced h k l in
      let on_disk = ap (λ p. p.1.1) same ∙ finish-disk (replaced text) in
      let (result, apart) =
        write_rename_atomic (on_write json path) (on_rename json path) os path text disk in
      (
        elim result [
          | inl (done, at) ↦ inr (
              inl (record {
                text = text;
                dirty = h;
                marshalled = k;
                succeeded = ap (λ p. p.0) same ∙ (finish-ok (replaced text) done).0;
                cleaned = ap (λ p. p.1.0) same ∙ (finish-ok (replaced text) done).1;
                stored = ap (lookup path) on_disk ∙ at;
              }))
          | inr (e, failed_with, at) ↦ inr (
              inr (record {
                message = e;
                dirty = h;
                failed_with = ap (λ p. p.0) same ∙ (finish-err (replaced text) failed_with).0;
                unflushed = ap (λ p. p.1.0) same ∙ (finish-err (replaced text) failed_with).1;
                unchanged = ap (lookup path) on_disk ∙ at;
              }))
        ],
        λ other far beside. ap (lookup other) on_disk ∙ apart other far beside,
      )

  pub flush_atomic : (Skipped ⊎ Written ⊎ Kept) × Untouched
  flush_atomic = elim (Bool-cases m.dirty) [
    | inr h ↦ (
      inl (record { clean = h; same = flush-clean h }),
      λ other _ _. ap (λ p. lookup other p.1.1) (flush-clean h),
    )
    | inl h ↦ elim (Result-cases (json.marshal (sorted_entries m))) [
      | inr (e, k) ↦ stopped h (flush-marshal_failed h k)
      | inl (text, k) ↦ elim (Result-cases (mkdir_all os)) [
        | inr (e, l) ↦ stopped h (flush-mkdir_failed h k l)
        | inl (u, l) ↦ flush_outcome_replaced h k l
      ]
    ]
  ]
