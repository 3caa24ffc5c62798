-- ===== src/State/FileStore/Outcome.antt =====
-- What `FileStore` leaves behind, on success and on each failure, and what the next run reads.
use auto_cert.Base.{
  ◌≡◌, refl, sym, ap, ◌∙◌, none, some, List, [], ◌∷◌, ◌++◌, list_eq, nat_eq, arith, inl, inr, ◌⊎◌,
  subst, ℕ,
}
use auto_cert.Base.Text.{Text, codes}
use auto_cert.Base.Dict.{lookup}
use auto_cert.Base.Result.{Result, ok, err, Result-cases, ok-ne-err, ok-injective, bind_inv, wrap}
use auto_cert.Base.Codec.{Codec, IsFaithful}
use auto_cert.Files.{Disk, Os, contents, Read, absent, failed, read_file, mkdir_all, write_rename}
use auto_cert.Files.Atomic.{write_rename_atomic}
use auto_cert.Model.{Alert}
use auto_cert.Time.{Time}
use auto_cert.State.{Known, Record, filter_against, upsert, index, decode}
use auto_cert.State.Save.{IsWellFormed, index-IsWellFormed}
use auto_cert.State.Repeat.{DatesAgree, filter_against-saved}
use auto_cert.State.FileStore.{of_read, load, filter, save_records, save, on_write, on_rename}

module _ (json : Codec (List Record)) (path : Text) where
  decode-parsed :
      (c : ℕ) (text : Text) {recs : List Record}
      → json.unmarshal (c ∷ text) ≡ ok recs
      → decode json.unmarshal (c ∷ text) ≡ ok (index recs)
  unfolding decode
  decode-parsed c text h = rw (h, wrap)

  decode-IsWellFormed :
      (text : Text) {m : Known} → decode json.unmarshal text ≡ ok m → IsWellFormed m
  unfolding decode
  decode-IsWellFormed [] h = subst IsWellFormed (ok-injective h) (record { keyed = tt; nodup = tt })
  decode-IsWellFormed (c ∷ text) h =
      let (recs, e, _) =
        bind_inv (λ recs. ok (index recs))
          (wrap (λ e. codes "state parse: " ++ e) (json.unmarshal (c ∷ text))) h in
      subst IsWellFormed (ok-injective e) (index-IsWellFormed recs)

  of_read-IsWellFormed : (r : Read) {m : Known} → of_read json path r ≡ ok m → IsWellFormed m
  unfolding of_read
  of_read-IsWellFormed absent h =
      subst IsWellFormed (ok-injective h) (record { keyed = tt; nodup = tt })
  of_read-IsWellFormed (failed e) h = cc
  of_read-IsWellFormed (contents text) h = decode-IsWellFormed text h

  load-IsWellFormed :
      (os : Os) (disk : Disk) {m : Known} → load json path os disk ≡ ok m → IsWellFormed m
  unfolding load
  load-IsWellFormed os disk h = of_read-IsWellFormed (read_file os path disk) h

  module _ (now : Time) (sent : List Alert) (os : Os) (disk : Disk) where
    abbrev pub saved : Result (Unit {0}) × Disk
    saved = save json path now sent os disk

    -- The run went through, and the file holds the records in full.
    pub record Written : Type 0 where
      pub existing : Known
      pub text : Text
      pub loaded : load json path os disk ≡ ok existing
      pub marshalled : json.marshal (upsert now existing sent) ≡ ok text
      pub succeeded : saved.0 ≡ ok tt
      pub stored : lookup path saved.1 ≡ some text

    -- The run stopped with an error, and the file holds what it held.
    pub record Kept : Type 0 where
      pub message : Text
      pub failed_with : saved.0 ≡ err message
      pub unchanged : lookup path saved.1 ≡ lookup path disk

    save-load_failed : {e : Text} → load json path os disk ≡ err e → saved ≡ (err e, disk)
    unfolding save
    save-load_failed h = ground arith

    save-loaded :
        {m : Known}
        → load json path os disk ≡ ok m
        → saved ≡ save_records json path (upsert now m sent) os disk
    unfolding save
    save-loaded h = ground arith

  module _ (recs : List Record) (os : Os) (disk : Disk) where
    abbrev stored_records : Result (Unit {0}) × Disk
    stored_records = save_records json path recs os disk

    save_records-mkdir_failed :
        {e : Text}
        → mkdir_all os ≡ err e
        → stored_records ≡ (err (codes "state mkdir: " ++ e), disk)
    unfolding save_records
    save_records-mkdir_failed h = ground arith

    save_records-marshal_failed :
        {u : Unit {0}} {e : Text}
        → mkdir_all os ≡ ok u
        → json.marshal recs ≡ err e
        → stored_records ≡ (err (codes "state marshal: " ++ e), disk)
    unfolding save_records
    save_records-marshal_failed h k = ground arith

    save_records-write :
        {u : Unit {0}} {text : Text}
        → mkdir_all os ≡ ok u
        → json.marshal recs ≡ ok text
        → stored_records ≡ write_rename (on_write json path) (on_rename json path) os path text disk
    unfolding save_records
    save_records-write h k = ground arith

    save_records_outcome :
        ((text : Text) × (json.marshal recs ≡ ok text)
          × (stored_records.0 ≡ ok tt)
          × (lookup path stored_records.1 ≡ some text))
        ⊎ ((e : Text) × (stored_records.0 ≡ err e)
            × (lookup path stored_records.1 ≡ lookup path disk))
    save_records_outcome = elim (Result-cases (mkdir_all os)) [
      | inr (e, h) ↦
          let same = save_records-mkdir_failed h in
          inr (codes "state mkdir: " ++ e, ap (λ p. p.0) same, ap (λ p. lookup path p.1) same)
      | inl (u, h) ↦ elim (Result-cases (json.marshal recs)) [
        | inr (e, k) ↦
            let same = save_records-marshal_failed h k in
            inr (codes "state marshal: " ++ e, ap (λ p. p.0) same, ap (λ p. lookup path p.1) same)
        | inl (text, k) ↦
            let same = save_records-write h k in
            elim (write_rename_atomic (on_write json path) (on_rename json path) os path text
              disk).0 [
                | inl (done, at) ↦
                    inl (text, k, ap (λ p. p.0) same ∙ done, ap (λ p. lookup path p.1) same ∙ at)
                | inr (e, failed_with, at) ↦
                    inr (e, ap (λ p. p.0) same ∙ failed_with, ap (λ p. lookup path p.1) same ∙ at)
              ]
      ]
    ]

  -- `Save` either succeeds, and the file then holds the updated records in full, or it fails, and
  -- the file holds what it held, whatever call failed and whatever the failed write left behind.
  pub save_atomic :
      (now : Time) (sent : List Alert) (os : Os) (disk : Disk)
      → Written now sent os disk ⊎ Kept now sent os disk
  save_atomic now sent os disk = elim (Result-cases (load json path os disk)) [
    | inr (e, h) ↦
        let same = save-load_failed now sent os disk h in
        inr (record {
          message = e;
          failed_with = ap (λ p. p.0) same;
          unchanged = ap (λ p. lookup path p.1) same;
        })
    | inl (m, h) ↦
        let same = save-loaded now sent os disk h in
        elim (save_records_outcome (upsert now m sent) os disk) [
          | inl (text, k, done, at) ↦ inl (record {
            existing = m;
            text = text;
            loaded = h;
            marshalled = k;
            succeeded = ap (λ p. p.0) same ∙ done;
            stored = ap (λ p. lookup path p.1) same ∙ at;
          })
          | inr (e, failed_with, at) ↦ inr (record {
            message = e;
            failed_with = ap (λ p. p.0) same ∙ failed_with;
            unchanged = ap (λ p. lookup path p.1) same ∙ at;
          })
        ]
  ]

  filter-loaded :
      (alerts : List Alert) (os : Os) (disk : Disk) {m : Known}
      → load json path os disk ≡ ok m
      → filter json path alerts os disk ≡ ok (filter_against m alerts)
  unfolding filter
  filter-loaded alerts os disk h = rw h

  load-stored :
      (os : Os) (disk : Disk) (recs : List Record) (text : Text)
      → IsFaithful json
      → os.read_error ≡ none
      → lookup path disk ≡ some text
      → json.marshal recs ≡ ok text
      → load json path os disk ≡ ok (index recs)
  unfolding load read_file of_read
  load-stored os disk recs [] f healthy at m = absurd (f.not_empty recs [] m refl)
  load-stored os disk recs (c ∷ text) f healthy at m =
      ground (arith, decode-parsed c text (f.unmarshal-marshal recs (c ∷ text) m))

  -- The second of two runs over the same alerts finds no news, once the first could save its own.
  pub filter_after_save :
      (now : Time) (alerts : List Alert) (os os' : Os) (disk : Disk) {fresh : List Alert}
      → IsFaithful json
      → DatesAgree alerts
      → filter json path alerts os disk ≡ ok fresh
      → (save json path now fresh os disk).0 ≡ ok tt
      → os'.read_error ≡ none
      → filter json path alerts os' (save json path now fresh os disk).1 ≡ ok []
  filter_after_save now alerts os os' disk {fresh} f agree filtered done healthy =
      elim (save_atomic now fresh os disk) [
        | inr kept ↦ absurd (ok-ne-err (sym done ∙ kept.failed_with))
        | inl w ↦
            let same = ok-injective (sym filtered ∙ filter-loaded alerts os disk w.loaded) in
            filter-loaded alerts os' (save json path now fresh os disk).1 (
              load-stored os' (save json path now fresh os disk).1 (upsert now w.existing fresh)
                w.text f healthy w.stored w.marshalled)
            ∙ ap ok (
                subst (λ l. filter_against (index (upsert now w.existing l)) alerts ≡ []) (sym same)
                  (filter_against-saved now w.existing alerts (load-IsWellFormed os disk w.loaded)
                    agree))
      ]
