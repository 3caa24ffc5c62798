-- ===== src/State/FileStore.antt =====
-- internal/state/file_store.go: the store in a JSON file.
pub mod Outcome
use auto_cert.Base.{
  ◌≡◌, ◌≢◌, refl, sym, ap, ◌∙◌, Option, none, some, List, [], ◌∷◌, ◌++◌, list_eq, nat_eq, arith,
  inl, inr, ◌⊎◌, subst, ℕ,
}
use auto_cert.Base.Text.{Text, codes}
use auto_cert.Base.Dict.{lookup}
use auto_cert.Base.Result.{Result, ok, err, ◌>>=◌}
use auto_cert.Base.Codec.{Codec, IsFaithful}
use auto_cert.Files.{Disk, Os, contents, Read, absent, failed, read_file, mkdir_all, write_rename}
use auto_cert.Files.Atomic.{write_rename_atomic}
use auto_cert.Model.{Alert}
use auto_cert.Time.{Time}
use auto_cert.State.{Known, Record, filter_against, upsert, index, decode}
use auto_cert.State.Save.{IsWellFormed, index-IsWellFormed}
use auto_cert.State.Repeat.{DatesAgree, filter_against-saved}

module _ (json : Codec (List Record)) (path : Text) where
  -- What `FileStore.load` makes of the file.
  unfoldable pub of_read : Read → Result Known
  unfolding decode
  of_read absent = ok []
  of_read (failed e) = err (codes "state read " ++ path ++ codes ": " ++ e)
  of_read (contents text) = decode json.unmarshal text

  -- `FileStore.load`
  unfoldable pub load : Os → Disk → Result Known
  load os disk = of_read (read_file os path disk)

  -- `FileStore.Filter`
  unfoldable pub filter : List Alert → Os → Disk → Result (List Alert)
  filter alerts os disk = load os disk >>= λ existing. ok (filter_against existing alerts)

  abbrev on_write : Text → Text
  on_write e = codes "state write " ++ path ++ codes ".tmp: " ++ e

  abbrev on_rename : Text → Text
  on_rename e = codes "state rename " ++ path ++ codes ": " ++ e

  -- The part of `FileStore.Save` behind the load.
  unfoldable pub save_records : List Record → Os → Disk → Result (Unit {0}) × Disk
  save_records recs os disk = elim (mkdir_all os) [
    | err e ↦ (err (codes "state mkdir: " ++ e), disk)
    | ok _ ↦ elim (json.marshal recs) [
      | err e ↦ (err (codes "state marshal: " ++ e), disk)
      | ok text ↦ write_rename on_write on_rename os path text disk
    ]
  ]

  -- `FileStore.Save`
  unfoldable pub save : Time → List Alert → Os → Disk → Result (Unit {0}) × Disk
  save now sent os disk = elim (load os disk) [
    | err e ↦ (err e, disk)
    | ok existing ↦ save_records (upsert now existing sent) os disk
  ]
