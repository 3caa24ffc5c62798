-- ===== src/Files/Atomic.antt =====
-- A file is replaced whole or not at all, and no other file but the temporary one is touched.
use auto_cert.Base.{
  ◌≡◌, sym, ◌∙◌, ap, ◌≢◌, ◌⊎◌, inl, inr, none, some, arith, list_eq, nat_eq, Option-cases, length,
  length-append,
}
use auto_cert.Base.Text.{Text, codes}
use auto_cert.Base.Dict.{
  lookup, insert, erase, lookup-insert_self, lookup-insert_ne, lookup-erase_ne,
}
use auto_cert.Base.Result.{ok, err}
use auto_cert.Files.{Disk, Os, write_rename, tmp_of}

pub tmp_of-ne : (path : Text) → tmp_of path ≢ path
tmp_of-ne path e = omega (arith, ap length e, length-append path (codes ".tmp"))

module _ (on_write on_rename : Text → Text) (os : Os) (path text : Text) (disk : Disk) where
  abbrev pub after : Disk
  after = (write_rename on_write on_rename os path text disk).1

  write_failed :
      {e : Text}
      → os.write_error ≡ some e
      → write_rename on_write on_rename os path text disk ≡ (
        err (on_write e),
        elim os.partial [ none ↦ disk | some part ↦ insert (tmp_of path) part disk ],
      )
  unfolding write_rename
  write_failed h = rw h

  rename_failed :
      {e : Text}
      → os.write_error ≡ none
      → os.rename_error ≡ some e
      → write_rename on_write on_rename os path text disk
        ≡ (err (on_rename e), insert (tmp_of path) text disk)
  unfolding write_rename
  rename_failed h k = rw (h, k)

  replaced :
      os.write_error ≡ none
      → os.rename_error ≡ none
      → write_rename on_write on_rename os path text disk
        ≡ (ok tt, insert path text (erase (tmp_of path) (insert (tmp_of path) text disk)))
  unfolding write_rename
  replaced h k = ground (arith, lookup-insert_self (tmp_of path) text disk)

  lookup-partial :
      {other : Text}
      → other ≢ tmp_of path
      → lookup other (elim os.partial [ none ↦ disk | some part ↦ insert (tmp_of path) part disk ])
        ≡ lookup other disk
  lookup-partial {other} h = elim (Option-cases os.partial) [
    | inl e ↦ rw e
    | inr (part, e) ↦ rw e (lookup-insert_ne part disk h)
  ]

  abbrev pub Untouched : Type 0
  Untouched =
      (other : Text) → other ≢ path → other ≢ tmp_of path → lookup other after ≡ lookup other disk

  -- If the sequence succeeds the file holds the new text. If it fails, at whatever call, the file
  -- holds what it held. All files but it and the temporary one are as they were.
  pub write_rename_atomic :
      (((write_rename on_write on_rename os path text disk).0 ≡ ok tt)
          × (lookup path after ≡ some text)
        ⊎ ((e : Text) × ((write_rename on_write on_rename os path text disk).0 ≡ err e)
            × (lookup path after ≡ lookup path disk)))
      × Untouched
  write_rename_atomic = elim (Option-cases os.write_error) [
    | inr (e, h) ↦ (
      inr (
        on_write e,
        rw (write_failed h),
        rw (write_failed h, after) (lookup-partial (λ same. tmp_of-ne path (sym same))),
      ),
      λ other _ apart. rw (write_failed h, after) (lookup-partial apart),
    )
    | inl h ↦ elim (Option-cases os.rename_error) [
      | inr (e, k) ↦ (
        inr (
          on_rename e,
          rw (rename_failed h k),
          rw (rename_failed h k, after)
              (lookup-insert_ne text disk (λ same. tmp_of-ne path (sym same))),
        ),
        λ other _ apart. rw (rename_failed h k, after) (lookup-insert_ne text disk apart),
      )
      | inl k ↦ (
        inl (rw (replaced h k), rw (replaced h k, after) (lookup-insert_self path text _)),
        λ other far apart.
            rw (replaced h k, after)
              (lookup-insert_ne text (erase (tmp_of path) (insert (tmp_of path) text disk)) far
                ∙ lookup-erase_ne (insert (tmp_of path) text disk) apart
                ∙ lookup-insert_ne text disk apart),
      )
    ]
  ]
