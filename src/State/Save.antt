-- ===== src/State/Save.antt =====
-- `upsert` and `decode`: what the store knows after alerts were saved and the file was read again.
use mathlib.Core.List.{Perm}
use mathlib.Core.List.Perm
use native.Mathlib.Decide.{ℕ_discrete}
use auto_cert.Base.{◌≡◌, sym, ◌∙◌, ap, List, [], ◌∷◌, list_eq, nat_eq}
use auto_cert.Base.Int.{ℤ, int_eq, lt_ℤ}
use auto_cert.Base.Text.{Text}
use auto_cert.Base.Dict.{lookup, values, NodupKeys}
use auto_cert.Base.Dict.Fill.{
  fill, lookup-fill_nil, fill-NodupKeys, last_of-perm, last_of-values, IsKeyed, insert-IsKeyed,
  fill-IsKeyed, values-KeysApart,
}
use auto_cert.Base.Sort.{sort_slice}
use auto_cert.Base.Sort.Laws.{sort_slice-perm, sort_slice-eq_of_perm}
use auto_cert.Base.Sort.Order.{
  IsTotalOrder, lex, lt_text, lex-IsTotalOrder, lt_text-IsTotalOrder, lt_ℤ-IsTotalOrder,
  on-IsWeakOrder,
}
use auto_cert.Model.{Alert}
use auto_cert.Time.{Time}
use auto_cert.State.{
  Known, Record, key, alert_key, record_key, record_of, remember, upsert, index, less_record,
  triple,
}

-- What every map of the store satisfies: a record stands under its own key, and once.
pub record IsWellFormed (m : Known) : Type 0 where
  pub keyed : IsKeyed record_key m
  pub nodup : NodupKeys m

Time-discrete : Discrete Time
Time-discrete = hlevel ℕ_discrete

Record-set : IsSet Record
Record-set = hlevel

module _ (now : Time) where
  remember-IsKeyed :
      (sent : List Alert) (m : Known)
      → IsKeyed record_key m
      → IsKeyed record_key (remember now m sent)
  unfolding fill
  remember-IsKeyed [] m h = h
  remember-IsKeyed (a ∷ sent) m h =
      remember-IsKeyed sent _ (insert-IsKeyed record_key (record_of now a) m h)

  -- Saving keeps the map well formed.
  pub remember-IsWellFormed :
      (m : Known) (sent : List Alert) → IsWellFormed m → IsWellFormed (remember now m sent)
  remember-IsWellFormed m sent w = record {
    keyed = remember-IsKeyed sent m w.keyed;
    nodup = fill-NodupKeys alert_key (record_of now) sent m w.nodup;
  }

less_triple-IsTotalOrder : IsTotalOrder (lex lt_text (lex lt_text lt_ℤ))
less_triple-IsTotalOrder =
    lex-IsTotalOrder lt_text-IsTotalOrder (lex-IsTotalOrder lt_text-IsTotalOrder lt_ℤ-IsTotalOrder)

record_key-triple : (a b : Record) → triple a ≡ triple b → record_key a ≡ record_key b
record_key-triple a b e = ap (λ (t : Text × (Text × ℤ)). key t.0 t.1.0 t.1.1) e

module _ (now : Time) (m : Known) (sent : List Alert) (w : IsWellFormed m) where
  -- What is written and read back answers every question as the map before it was written.
  pub lookup-index-upsert :
      (k : Text) → lookup k (index (upsert now m sent)) ≡ lookup k (remember now m sent)
  unfolding upsert index
  lookup-index-upsert k =
      let d = remember now m sent in
      let v = remember-IsWellFormed now m sent w in
      lookup-fill_nil record_key (λ r. r) k (sort_slice less_record (values d))
      ∙ sym (
          last_of-perm record_key k (values d) (sort_slice less_record (values d))
            (values-KeysApart record_key Record-set d v.keyed v.nodup)
            (Perm.symm (sort_slice-perm less_record (values d))))
      ∙ last_of-values record_key k d v.keyed v.nodup

  -- The order in which Go walks the map does not show: every walk is sorted into one list.
  pub upsert_walk :
      (walk : List Record)
      → Perm walk (values (remember now m sent))
      → sort_slice less_record walk ≡ upsert now m sent
  unfolding upsert
  upsert_walk walk p =
      let d = remember now m sent in
      let v = remember-IsWellFormed now m sent w in
      sort_slice-eq_of_perm less_record (on-IsWeakOrder triple less_triple-IsTotalOrder.weak) walk
        (values d)
        (λ a b ma mb h k.
          values-KeysApart record_key Record-set d v.keyed v.nodup a b (Perm.subset p a ma)
            (Perm.subset p b mb)
            (record_key-triple a b (less_triple-IsTotalOrder.connected (triple a) (triple b) h k)))
        p

-- The map that is read from a file is well formed, whatever the file holds.
pub index-IsWellFormed : (recs : List Record) → IsWellFormed (index recs)
unfolding index
index-IsWellFormed recs = record {
  keyed = fill-IsKeyed record_key recs [] tt;
  nodup = fill-NodupKeys record_key (λ r. r) recs [] tt;
}
