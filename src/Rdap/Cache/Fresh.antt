-- ===== src/Rdap/Cache/Fresh.antt =====
-- What `Get` answers after any sequence of `Set`: the last answer that was worth storing, if it is
-- not too old.
use auto_cert.Base.{
  ◌≡◌, refl, sym, ap, ◌∙◌, Bool, true, false, not, Option, some, List, [], ◌∷◌, list_eq, nat_eq,
  inl, inr, keep, Bool-cases, if◌then◌else◌,
}
use auto_cert.Base.Int.{ℤ, pos, le_ℤ}
use auto_cert.Base.Text.{Text, to_lower}
use auto_cert.Base.Dict.{Dict, lookup, insert}
use auto_cert.Base.Dict.Fill.{fill, last_with, lookup-fill_nil}
use auto_cert.Model.{DomainInfo}
use auto_cert.Time.{Time}
use auto_cert.Rdap.Cache.{
  MemBackend, CachedEntry, new_mem_backend, default_ttl, get, put, unexpired, cached_entry,
  is_refused,
}

-- A call of `Set`.
pub record Stored : Type 0 where
  pub at : Time
  pub domain : Text
  pub info : DomainInfo

-- The calls, one after the other, as the lock orders them.
unfoldable pub put_all : List Stored → MemBackend → MemBackend
unfolding put
put_all [] m = m
put_all (s ∷ later) m = put_all later (put s.at s.domain (some s.info) m)

-- An answer that is not an error and has a date.
abbrev pub is_worth : Stored → Bool
is_worth s = not (is_refused s.info)

-- The last answer worth storing for a name, whatever its case.
abbrev pub last_worth : Text → List Stored → Option CachedEntry
last_worth domain calls =
    last_with (λ (s : Stored). to_lower s.domain) (λ s. cached_entry s.at s.info) (to_lower domain)
      (keep is_worth calls)

pub put-refused :
    (s : Stored) (m : MemBackend) → is_refused s.info ≡ true → put s.at s.domain (some s.info) m ≡ m
unfolding put
put-refused s m h = rw h

pub put-worth :
    (s : Stored) (m : MemBackend)
    → is_refused s.info ≡ false
    → put s.at s.domain (some s.info) m ≡ record m {
      entries = insert (to_lower s.domain) (cached_entry s.at s.info) m.entries;
      dirty = true;
    }
unfolding put
put-worth s m h = rw h

keep_worth-refused :
    (s : Stored) (later : List Stored)
    → is_refused s.info ≡ true
    → keep is_worth (s ∷ later) ≡ keep is_worth later
keep_worth-refused s later h = rw h

keep_worth-worth :
    (s : Stored) (later : List Stored)
    → is_refused s.info ≡ false
    → keep is_worth (s ∷ later) ≡ s ∷ keep is_worth later
keep_worth-worth s later h = rw h

abbrev filled : List Stored → Dict Text CachedEntry → Dict Text CachedEntry
filled calls d = fill (λ (s : Stored). to_lower s.domain) (λ s. cached_entry s.at s.info) d calls

put_all-entries :
    (calls : List Stored) (m : MemBackend)
    → (put_all calls m).entries ≡ filled (keep is_worth calls) m.entries
unfolding put_all fill
put_all-entries [] m = refl
put_all-entries (s ∷ later) m = elim (Bool-cases (is_refused s.info)) [
  | inl h ↦
      ap (λ n. (put_all later n).entries) (put-refused s m h)
      ∙ put_all-entries later m
      ∙ ap (λ l. filled l m.entries) (sym (keep_worth-refused s later h))
  | inr h ↦
      ap (λ n. (put_all later n).entries) (put-worth s m h)
      ∙ put_all-entries later _
      ∙ ap (λ l. filled l m.entries) (sym (keep_worth-worth s later h))
]

pub put_all-ttl : (calls : List Stored) (m : MemBackend) → (put_all calls m).ttl ≡ m.ttl
unfolding put_all put
put_all-ttl [] m = refl
put_all-ttl (s ∷ later) m = elim (Bool-cases (is_refused s.info)) [
  | inl h ↦ ap (λ n. (put_all later n).ttl) (put-refused s m h) ∙ put_all-ttl later m
  | inr h ↦ ap (λ n. (put_all later n).ttl) (put-worth s m h) ∙ put_all-ttl later _
]

-- After any calls of `Set` on a new cache, `Get` answers the last answer worth storing for the name,
-- whatever its case, unless more than the lifetime has passed, which is seven days where none is
-- given; errors and answers with no date change nothing.
pub get_fresh :
    (now : Time) (domain : Text) (ttl : ℤ) (calls : List Stored)
    → get now domain (put_all calls (new_mem_backend ttl))
      ≡ unexpired now (if le_ℤ ttl (pos 0) then default_ttl else ttl) (last_worth domain calls)
unfolding get new_mem_backend
get_fresh now domain ttl calls =
    ap
      (λ t.
        unexpired now t (lookup (to_lower domain) (put_all calls (new_mem_backend ttl)).entries))
      (put_all-ttl calls (new_mem_backend ttl))
    ∙ ap (λ d. unexpired now (new_mem_backend ttl).ttl (lookup (to_lower domain) d))
        (put_all-entries calls (new_mem_backend ttl))
    ∙ ap (unexpired now (new_mem_backend ttl).ttl) (
        lookup-fill_nil (λ (s : Stored). to_lower s.domain) (λ s. cached_entry s.at s.info)
          (to_lower domain) (keep is_worth calls))
