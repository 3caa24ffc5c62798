-- ===== src/State.antt =====
-- internal/state/store.go: the memory of the alerts that were sent.
pub mod Key
pub mod Filter
pub mod Save
pub mod Repeat
pub mod FileStore
use mathlib.Core.List.{map}
use auto_cert.Base.{
  ℕ, Bool, true, false, Option, none, some, List, [], ◌∷◌, ◌++◌, ◌&&◌, list_eq, nat_eq,
  if◌then◌else◌,
}
use auto_cert.Base.Int.{ℤ, lt_ℤ}
use auto_cert.Base.Text.{Text, codes, format_int}
use auto_cert.Base.Dict.{Dict, lookup, values}
use auto_cert.Base.Dict.Fill.{fill}
use auto_cert.Base.Result.{Result, ok, err, ◌>>=◌, wrap}
use auto_cert.Base.Sort.{sort_slice}
use auto_cert.Base.Sort.Order.{lt_text, lex}
use auto_cert.Model.{Alert, AlertKind}
use auto_cert.Time.{Time, equal}

pub record Record : Type 0 where
  pub domain : Text
  pub kind : AlertKind
  pub threshold : ℤ
  pub expires_at : Time
  pub sent_at : Time

-- `fmt.Sprintf("%s|%s|%d", domain, kind, threshold)`
unfoldable pub key : Text → AlertKind → ℤ → Text
unfolding format_int
key domain kind threshold = domain ++ b'|' ∷ kind ++ b'|' ∷ format_int threshold

abbrev pub alert_key : Alert → Text
alert_key a = key a.domain a.kind a.threshold

abbrev pub record_key : Record → Text
record_key r = key r.domain r.kind r.threshold

-- What the store knows: a map from keys to records.
abbrev pub Known : Type 0
Known = Dict Text Record

-- `ok && r.ExpiresAt.Equal(a.ExpiresAt)`
abbrev pub is_known : Known → Alert → Bool
is_known existing a = elim (lookup (alert_key a) existing) [
  | none ↦ false
  | some r ↦ equal r.expires_at a.expires_at
]

-- `filterAgainst`
unfoldable pub filter_against : Known → List Alert → List Alert
unfolding lookup key
filter_against existing [] = []
filter_against existing (a ∷ alerts) =
    let rest = filter_against existing alerts in if is_known existing a then rest else a ∷ rest

-- The record of an alert that is sent now.
abbrev pub record_of : Time → Alert → Record
record_of now a = record {
  domain = a.domain;
  kind = a.kind;
  threshold = a.threshold;
  expires_at = a.expires_at;
  sent_at = now;
}

abbrev pub triple : Record → Text × (Text × ℤ)
triple r = (r.domain, (r.kind, r.threshold))

-- The comparison of the final sort: domain, then kind, then threshold.
abbrev pub less_record : Record → Record → Bool
less_record a b = lex lt_text (lex lt_text lt_ℤ) (triple a) (triple b)

-- The map after the loop of `upsert`.
abbrev pub remember : Time → Known → List Alert → Known
remember now existing sent = fill alert_key (record_of now) existing sent

-- `upsert`, at the time that `time.Now()` answers.
unfoldable pub upsert : Time → Known → List Alert → List Record
unfolding fill sort_slice key
upsert now existing sent = sort_slice less_record (values (remember now existing sent))

-- The map after the loop of `decode`.
unfoldable pub index : List Record → Known
unfolding fill key
index recs = fill record_key (λ r. r) [] recs

-- `decode`, over what `encoding/json` makes of the bytes.
unfoldable pub decode : (Text → Result (List Record)) → Text → Result Known
unfolding index
decode unmarshal [] = ok []
decode unmarshal (c ∷ data') =
    wrap (λ e. codes "state parse: " ++ e) (unmarshal (c ∷ data')) >>= λ recs. ok (index recs)
