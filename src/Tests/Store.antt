-- ===== src/Tests/Store.antt =====
-- internal/state and the replacement of files at concrete inputs.
use mathlib.Core.List.{mem-cons, mem-cons_self, mem-cons_of_mem, not-mem-nil}
use mathlib.Core.Logic.Or
use auto_cert.Base.{◌≡◌, ◌≢◌, refl, ap, true, false, List, [], ◌∷◌, ◌⊎◌, list_eq, nat_eq, pair_eq}
use auto_cert.Base.Int.{ℤ, pos, int_eq}
use auto_cert.Base.Text.{Text, codes}
use auto_cert.Base.Dict.{lookup, insert}
use auto_cert.Base.Dict.Fill.{fill}
use auto_cert.Base.Codec.{Codec, IsFaithful}
use auto_cert.Base.Result.{ok}
use auto_cert.Base.Sort.{sort_slice}
use auto_cert.Base.Sort.Laws.{Bool-eq_prop}
use auto_cert.Files.{healthy, write_rename, read_file, mkdir_all, write_file, rename}
use auto_cert.Model.{Alert, cert_expiring}
use auto_cert.Time.{Time, equal}
use auto_cert.State.{
  Record, key, alert_key, record_of, filter_against, upsert, index, remember, is_known,
}
use auto_cert.State.Key.{key-inj}
use auto_cert.State.Filter.{filter_against-conflict}
use auto_cert.State.Save.{IsWellFormed, lookup-index-upsert}
use auto_cert.State.Repeat.{DatesAgree, renewal_rearms}
use auto_cert.State.FileStore.{filter, save, load, of_read, save_records}
use auto_cert.State.FileStore.Outcome.{Written, Kept, save_atomic, filter_after_save}
use auto_cert.Tests.Codecs.{one_list, one_list-IsFaithful}
use auto_cert.Tests.Samples.{day, example_alert, alert_at}

abbrev renewed_alert : Alert
renewed_alert = alert_at (day (pos 190))

abbrev now : Time
now = day (pos 95)

empty-IsWellFormed : IsWellFormed []
empty-IsWellFormed = record { keyed = tt; nodup = tt }

one-DatesAgree : (a : Alert) → equal a.expires_at a.expires_at ≡ true → DatesAgree (a ∷ [])
one-DatesAgree a h x y mx my same =
    Or.elim Bool-eq_prop (mem-cons.0 mx)
      (λ ex.
        Or.elim Bool-eq_prop (mem-cons.0 my)
          (λ ey. rw (ap (λ (a : Alert). a.expires_at) ex, ap (λ (a : Alert). a.expires_at) ey) h)
          (λ none_left. absurd (not-mem-nil none_left)))
      (λ none_left. absurd (not-mem-nil none_left))

key-inj_example : (codes "a|b" ≡ codes "a|b") × (cert_expiring ≡ cert_expiring) × (pos 7 ≡ pos 7)
key-inj_example =
    key-inj (codes "a|b") (codes "a|b") cert_expiring cert_expiring (pos 7) (pos 7) refl refl refl

filter_against-conflict_example : filter_against [] (example_alert ∷ renewed_alert ∷ []) ≢ []
filter_against-conflict_example =
    filter_against-conflict [] (example_alert ∷ renewed_alert ∷ []) example_alert renewed_alert
      mem-cons_self (mem-cons_of_mem example_alert mem-cons_self) refl refl

lookup-index-upsert_example :
    lookup (alert_key example_alert) (index (upsert now [] (example_alert ∷ [])))
    ≡ lookup (alert_key example_alert) (remember now [] (example_alert ∷ []))
lookup-index-upsert_example =
    lookup-index-upsert now [] (example_alert ∷ []) empty-IsWellFormed (alert_key example_alert)

renewal_rearms_example : is_known (index (upsert now [] (example_alert ∷ []))) renewed_alert ≡ false
unfolding key
renewal_rearms_example =
    renewal_rearms now [] (example_alert ∷ []) empty-IsWellFormed renewed_alert example_alert refl
      refl

abbrev path : Text
path = codes "state.json"

-- A codec that knows the records of the example.
abbrev Parts : Type 0
Parts = (Text × Text) × ((ℤ × ℤ) × ((ℤ × ℤ) × ℤ))

abbrev parts : Record → Parts
parts r = (
  (r.domain, r.kind),
  ((r.expires_at.instant, r.expires_at.zone), ((r.sent_at.instant, r.sent_at.zone), r.threshold)),
)

abbrev of_parts : Parts → Record
of_parts p = record {
  domain = p.0.0;
  kind = p.0.1;
  threshold = p.1.1.1;
  expires_at = record { instant = p.1.0.0; zone = p.1.0.1 };
  sent_at = record { instant = p.1.1.0.0; zone = p.1.1.0.1 };
}

abbrev known_records : List Record
known_records = record_of now example_alert ∷ []

abbrev sample_json : Codec (List Record)
sample_json = one_list parts of_parts (λ r. refl) known_records

sample_json-IsFaithful : IsFaithful sample_json
sample_json-IsFaithful = one_list-IsFaithful parts of_parts (λ r. refl) known_records

save_atomic_example :
    Written sample_json path now (example_alert ∷ []) healthy []
    ⊎ Kept sample_json path now (example_alert ∷ []) healthy []
save_atomic_example = save_atomic sample_json path now (example_alert ∷ []) healthy []

first_filter : filter sample_json path (example_alert ∷ []) healthy [] ≡ ok (example_alert ∷ [])
unfolding filter load of_read read_file filter_against lookup
first_filter = refl

first_save : (save sample_json path now (example_alert ∷ []) healthy []).0 ≡ ok tt
unfolding save save_records load of_read read_file mkdir_all write_rename write_file rename upsert
    fill insert sort_slice key lookup
first_save = refl

filter_after_save_example :
    filter sample_json path
      (example_alert ∷ [])
      healthy
      (save sample_json path now (example_alert ∷ []) healthy []).1
    ≡ ok []
filter_after_save_example =
    filter_after_save sample_json path now (example_alert ∷ []) healthy healthy []
      {fresh = example_alert ∷ []} sample_json-IsFaithful (one-DatesAgree example_alert refl)
      first_filter first_save refl
