-- ===== src/Rdap/FileCache.antt =====
-- internal/rdap/file_cache.go: the cache in a JSON file.
pub mod Flush
pub mod Reload
use auto_cert.Base.{
  Bool, true, false, Option, none, some, List, [], ◌∷◌, ◌++◌, list_eq, nat_eq, if◌then◌else◌, not,
}
use auto_cert.Base.Int.{ℤ}
use auto_cert.Base.Text.{Text, codes}
use auto_cert.Base.Dict.{Dict}
use auto_cert.Base.Dict.Fill.{fill}
use auto_cert.Base.Codec.{Codec}
use auto_cert.Base.Result.{Result, ok, err}
use auto_cert.Base.Sort.{sort_slice}
use auto_cert.Base.Sort.Order.{lt_text, on}
use auto_cert.Files.{Disk, Os, Read, contents, absent, failed, read_file, mkdir_all, write_rename}
use auto_cert.Rdap.Cache.{MemBackend, CachedEntry, new_mem_backend, snapshot, mark_clean}

-- The comparison of the sort in `Flush`.
abbrev pub less_entry : CachedEntry → CachedEntry → Bool
less_entry = on (λ (e : CachedEntry). e.domain) lt_text

-- The loop of `load` over the entries of the file.
unfoldable pub fill_entries : List CachedEntry → MemBackend → MemBackend
unfolding fill
fill_entries es m = record m {
  entries = fill (λ (e : CachedEntry). e.domain) (λ e. e) m.entries es;
}

module _ (json : Codec (List CachedEntry)) (path : Text) where
  -- A file that cannot be parsed leaves the cache as it is.
  abbrev pub of_parsed : MemBackend → Result (List CachedEntry) → MemBackend
  of_parsed m (err e) = m
  of_parsed m (ok es) = fill_entries es m

  -- What `FileCache.load` makes of the file.
  abbrev pub loaded_from : MemBackend → Read → MemBackend
  loaded_from m absent = m
  loaded_from m (failed e) = m
  loaded_from m (contents text) = of_parsed m (json.unmarshal text)

  -- `NewFileCache`, which loads the file
  unfoldable pub new_file_cache : ℤ → Os → Disk → MemBackend
  unfolding new_mem_backend read_file fill_entries
  new_file_cache ttl os disk = loaded_from (new_mem_backend ttl) (read_file os path disk)

  abbrev pub on_write : Text → Text
  on_write e = codes "rdap cache write " ++ path ++ codes ".tmp: " ++ e

  abbrev pub on_rename : Text → Text
  on_rename e = codes "rdap cache rename: " ++ e

  -- `markClean`, if the file was replaced.
  abbrev pub finish :
      MemBackend → Result (Unit {0}) × Disk → Result (Unit {0}) × (MemBackend × Disk)
  finish m (ok _, disk) = (ok tt, (mark_clean m, disk))
  finish m (err e, disk) = (err e, (m, disk))

  -- `Flush` from the marshalling on.
  abbrev pub write_entries :
      Result Text → Os → MemBackend → Disk → Result (Unit {0}) × (MemBackend × Disk)
  write_entries (err e) os m disk = (err (codes "rdap cache marshal: " ++ e), (m, disk))
  write_entries (ok text) os m disk = elim (mkdir_all os) [
    | err e ↦ (err (codes "rdap cache mkdir: " ++ e), (m, disk))
    | ok _ ↦ finish m (write_rename on_write on_rename os path text disk)
  ]

  -- `FileCache.Flush`
  unfoldable pub flush : Os → MemBackend → Disk → Result (Unit {0}) × (MemBackend × Disk)
  unfolding mkdir_all write_rename sort_slice
  flush os m disk =
      if not m.dirty
      then (ok tt, (m, disk))
      else write_entries (json.marshal (sort_slice less_entry (snapshot m))) os m disk
