-- ===== src/State/Key.antt =====
-- The key of a record: one text for domain, kind and threshold, and none of the three is lost.
use auto_cert.Base.{◌≡◌, false, ◌∷◌, ◌++◌, list_eq, nat_eq}
use auto_cert.Base.Int.{ℤ}
use auto_cert.Base.Text.{Text, contains, format_int}
use auto_cert.Base.Text.Laws.{split_last_inj, contains-format_int, format_int-inj}
use auto_cert.Model.{AlertKind}
use auto_cert.State.{key}

-- Two alerts have one key only if they agree in domain, kind and threshold, whatever characters
-- the domain has, provided that neither kind contains the separator.
pub key-inj :
    (d d' : Text) (k k' : AlertKind) (t t' : ℤ)
    → contains k b'|' ≡ false
    → contains k' b'|' ≡ false
    → key d k t ≡ key d' k' t'
    → (d ≡ d') × (k ≡ k') × (t ≡ t')
unfolding key
key-inj d d' k k' t t' h h' e =
    let (front, back) =
      split_last_inj (d ++ b'|' ∷ k) (d' ++ b'|' ∷ k') (format_int t) (format_int t') b'|'
        (contains-format_int t) (contains-format_int t') e in
    let (first, second) = split_last_inj d d' k k' b'|' h h' front in
    (first, second, format_int-inj t t' back)
