-- ===== src/Discovery/Static.antt =====
-- internal/discovery/static.go: the domains of a file.
use auto_cert.Base.{
  Bool, Option, none, some, List, [], ◌∷◌, ◌++◌, ◌||◌, not, list_eq, nat_eq, if◌then◌else◌, ◌==◌,
  keep,
}
use mathlib.Core.List.{map}
use auto_cert.Base.Int.{ℤ}
use auto_cert.Base.Text.{Text, codes}
use auto_cert.Base.Members.{collect}
use auto_cert.Base.Result.{Result, ok, err, ◌>>=◌, wrap}
use auto_cert.Files.{Os, Disk, absent, failed, contents, read_file}
use auto_cert.Model.{Domain}
use auto_cert.Time.{Time}

pub record StaticEntry : Type 0 where
  pub name : Text
  pub port : ℤ
  pub expiry_fallback : Option Time
  pub subdomains : List Text

pub record StaticGroup : Type 0 where
  pub source : Text
  pub domains : List StaticEntry

pub record StaticFile : Type 0 where
  pub groups : List StaticGroup
  pub domains : List StaticEntry

-- The scalar that `UnmarshalYAML` is called on.
pub record Node : Type 0 where
  pub is_null : Bool
  pub value : Text

-- The first layout of a list by which the text is a date.
abbrev first_layout : (Text → Text → Option Time) → Text → List Text → Option Time
first_layout parse text [] = none
first_layout parse text (f ∷ fs) = elim (parse f text) [
  | none ↦ first_layout parse text fs
  | some t ↦ some t
]

abbrev pub formats : List Text
formats =
    codes "2006-01-02"
    ∷ codes "02-01-2006"
    ∷ codes "2006-01-02T15:04:05Z07:00"
    ∷ codes "2006-01-02T15:04:05Z"
    ∷ []

-- `flexDate.UnmarshalYAML`, over `time.Parse` to UTC; none where it leaves the date unset.
unfoldable pub unmarshal_date : (Text → Text → Option Time) → Node → Result (Option Time)
unmarshal_date parse value =
    if value.is_null || value.value == []
    then ok none
    else elim (first_layout parse value.value formats) [
      | none ↦ err (
          codes "expiry_fallback \""
          ++ value.value
          ++ codes "\": not a recognized date (try YYYY-MM-DD or DD-MM-YYYY)")
      | some t ↦ ok (some t)
    ]

-- The entry of a subdomain: the port and source of its apex, and no date.
abbrev pub sub_domain : Text → StaticEntry → Text → Domain
sub_domain source e sub = record {
  name = sub ++ b'.' ∷ e.name;
  port = e.port;
  source = source;
  expiry_fallback = none;
}

abbrev not_empty : Text → Bool
not_empty s = not (s == [])

-- One round of `expand`.
abbrev pub expand_entry : Text → StaticEntry → List Domain
expand_entry source e =
    if e.name == []
    then []
    else record {
      name = e.name;
      port = e.port;
      source = source;
      expiry_fallback = e.expiry_fallback;
    }
      ∷ map (sub_domain source e) (keep not_empty e.subdomains)

-- `expand`: what it appends
unfoldable pub expand : Text → List StaticEntry → List Domain
expand source entries = collect (expand_entry source) entries

abbrev group_source : StaticGroup → Text
group_source g = if g.source == [] then codes "static" else g.source

-- The domains of a parsed file.
unfoldable pub static_domains : StaticFile → List Domain
unfolding expand
static_domains f =
    expand (codes "static") f.domains ++ collect (λ g. expand (group_source g) g.domains) f.groups

abbrev no_such_file : Text
no_such_file = codes "no such file or directory"

-- `Static.Discover`, over `yaml.Unmarshal`
unfoldable pub discover : (Text → Result StaticFile) → Text → Os → Disk → Result (List Domain)
unfolding static_domains read_file
discover yaml path os disk = elim (read_file os path disk) [
  | absent ↦ err (codes "read " ++ path ++ codes ": " ++ no_such_file)
  | failed e ↦ err (codes "read " ++ path ++ codes ": " ++ e)
  | contents text ↦ wrap (λ e. codes "parse " ++ path ++ codes ": " ++ e) (yaml text) >>= λ f.
      ok (static_domains f)
]
