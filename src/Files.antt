-- ===== src/Files.antt =====
-- The file system as the program uses it: whole files read, written beside their place and renamed
-- into it (package `os`). Directories are not modelled.
pub mod Atomic
use auto_cert.Base.{Option, none, some, List, [], ◌++◌, list_eq, nat_eq}
use auto_cert.Base.Text.{Text, codes}
use auto_cert.Base.Dict.{Dict, lookup, insert, erase}
use auto_cert.Base.Result.{Result, ok, err}

-- The contents of each file that is there.
abbrev pub Disk : Type 0
Disk = Dict Text Text

-- What the operating system answers to the calls of one operation: the error of each, if it fails,
-- and what a write that fails leaves in its file, if it leaves anything.
pub record Os : Type 0 where
  pub read_error : Option Text
  pub mkdir_error : Option Text
  pub write_error : Option Text
  pub partial : Option Text
  pub rename_error : Option Text

-- The answers when nothing fails.
abbrev pub healthy : Os
healthy = record {
  read_error = none;
  mkdir_error = none;
  write_error = none;
  partial = none;
  rename_error = none;
}

pub data Read : Type 0 where
  contents : Text → Read
  -- `errors.Is(err, fs.ErrNotExist)`
  absent : Read
  failed : Text → Read

-- `os.ReadFile`
unfoldable pub read_file : Os → Text → Disk → Read
read_file os path disk = elim os.read_error [
  | some e ↦ failed e
  | none ↦ elim (lookup path disk) [ none ↦ absent | some text ↦ contents text ]
]

-- `os.MkdirAll`
unfoldable pub mkdir_all : Os → Result (Unit {0})
mkdir_all os = elim os.mkdir_error [ some e ↦ err e | none ↦ ok tt ]

-- `os.WriteFile`
unfoldable pub write_file : Os → Text → Text → Disk → Result (Unit {0}) × Disk
write_file os path text disk = elim os.write_error [
  | none ↦ (ok tt, insert path text disk)
  | some e ↦ (err e, elim os.partial [ none ↦ disk | some part ↦ insert path part disk ])
]

-- `os.Rename`
unfoldable pub rename : Os → Text → Text → Disk → Result (Unit {0}) × Disk
rename os from to disk = elim os.rename_error [
  | some e ↦ (err e, disk)
  | none ↦ elim (lookup from disk) [
    | none ↦ (err (codes "no such file"), disk)
    | some text ↦ (ok tt, insert to text (erase from disk))
  ]
]

-- `path + ".tmp"`
abbrev pub tmp_of : Text → Text
tmp_of path = path ++ codes ".tmp"

-- The sequence that every store of the program ends with: write the temporary file, rename it.
-- The two functions word the errors.
unfoldable pub write_rename :
    (Text → Text) → (Text → Text) → Os → Text → Text → Disk → Result (Unit {0}) × Disk
unfolding write_file rename
write_rename on_write on_rename os path text disk =
    let (written, disk') = write_file os (tmp_of path) text disk in
    elim written [
      | err e ↦ (err (on_write e), disk')
      | ok _ ↦
          let (renamed, disk'') = rename os (tmp_of path) path disk' in
          elim renamed [ err e ↦ (err (on_rename e), disk'') | ok _ ↦ (ok tt, disk'') ]
    ]
