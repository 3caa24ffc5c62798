-- ===== src/Config/Defaults.antt =====
-- The defaults leave alone what is set, so applying them twice is applying them once.
use auto_cert.Base.{
  ◌≡◌, refl, ℕ, false, List, [], ◌∷◌, list_eq, nat_eq, arith, ◌==◌, All, All-append,
}
use auto_cert.Base.Int.{ℤ, pos, scale, int_eq}
use auto_cert.Base.Text.{Text, codes, contains, split, trim_space}
use auto_cert.Base.Text.Split.{Lacks, split-Lacks}
use auto_cert.Base.Text.Trim.{trim_space_idem, contains-trim_space}
use auto_cert.Base.Members.{collect}
use auto_cert.Config.{
  Config, or_text, or_int, or_ints, unless_empty, flatten_item, flatten_csv, apply_defaults,
}

-- An entry that is one address: no comma, no white space around it, and not empty.
abbrev pub IsAddress : Text → Type 0
IsAddress p = (unless_empty p ≡ p ∷ []) × (trim_space p ≡ p) × (contains p b',' ≡ false)

unless_empty-IsAddress :
    (p : Text) → trim_space p ≡ p → contains p b',' ≡ false → All IsAddress (unless_empty p)
unless_empty-IsAddress [] t h = tt
unless_empty-IsAddress (c ∷ p) t h = ((refl, t, h), tt)

parts-IsAddress :
    (ps : List Text)
    → All (Lacks b',') ps
    → All IsAddress (collect (λ p. unless_empty (trim_space p)) ps)
parts-IsAddress [] h = tt
parts-IsAddress (p ∷ ps) h =
    All-append IsAddress (unless_empty (trim_space p))
      (collect (λ q. unless_empty (trim_space q)) ps)
      (unless_empty-IsAddress (trim_space p) (trim_space_idem p) (contains-trim_space b',' p h.0))
      (parts-IsAddress ps h.1)

flatten_csv-IsAddress : (list : List Text) → All IsAddress (flatten_csv list)
unfolding flatten_csv
flatten_csv-IsAddress [] = tt
flatten_csv-IsAddress (item ∷ list) =
    All-append IsAddress (flatten_item item) (flatten_csv list)
      (parts-IsAddress (split item b',') (split-Lacks b',' item)) (flatten_csv-IsAddress list)

lacks_step :
    (c : ℕ) (p : Text)
    → contains (c ∷ p) b',' ≡ false
    → ((c == b',') ≡ false) × (contains p b',' ≡ false)
lacks_step c p h = (ground arith, ground arith)

split-one : (p : Text) → contains p b',' ≡ false → split p b',' ≡ p ∷ []
unfolding split
split-one [] h = refl
split-one (c ∷ p) h = let (first, later) = lacks_step c p h in rw (split-one p later, first)

flatten_item-one : (p : Text) → IsAddress p → flatten_item p ≡ p ∷ []
flatten_item-one p h = rw (split-one p h.2, h.1, h.0)

flatten_csv-same : (ps : List Text) → All IsAddress ps → flatten_csv ps ≡ ps
unfolding flatten_csv
flatten_csv-same [] h = refl
flatten_csv-same (p ∷ ps) h = rw (flatten_item-one p h.0, flatten_csv-same ps h.1)

or_text_idem : (d s : Text) → or_text d (or_text d s) ≡ or_text d s
or_text_idem [] [] = refl
or_text_idem (x ∷ d) [] = refl
or_text_idem d (c ∷ s) = refl

or_int_idem : (d n : ℤ) → or_int d (or_int d n) ≡ or_int d n
or_int_idem d n = ground arith

or_ints_idem : (d ns : List ℤ) → or_ints d (or_ints d ns) ≡ or_ints d ns
or_ints_idem [] [] = refl
or_ints_idem (x ∷ d) [] = refl
or_ints_idem d (n ∷ ns) = refl

-- Applying the defaults twice is applying them once, and each recipient of the mail is then one
-- address: not empty, with no comma and no white space around it.
pub apply_defaults_once :
    (c : Config)
    → (apply_defaults (apply_defaults c) ≡ apply_defaults c)
      × All IsAddress (apply_defaults c).notifier.smtp.to
unfolding apply_defaults
apply_defaults_once c = (
  λ i. record c {
    tls = record c.tls {
      default_port = or_int_idem (pos 443) c.tls.default_port i;
      workers = or_int_idem (pos 30) c.tls.workers i;
      timeout = or_int_idem (scale (pos 10) 1000000000) c.tls.timeout i;
    };
    rdap = record c.rdap {
      enrich_workers = or_int_idem (pos 5) c.rdap.enrich_workers i;
      cache = record c.rdap.cache {
        backend = or_text_idem (codes "none") c.rdap.cache.backend i;
        ttl = or_int_idem (scale (pos 168) 3600000000000) c.rdap.cache.ttl i;
      };
    };
    thresholds = or_ints_idem (pos 30 ∷ pos 15 ∷ pos 7 ∷ pos 3 ∷ []) c.thresholds i;
    secrets = record {
      backend = or_text_idem (codes "env") c.secrets.backend i;
      dotenv_path = or_text_idem (codes ".env") c.secrets.dotenv_path i;
    };
    notifier = record {
      backend = or_text_idem (codes "dryrun") c.notifier.backend i;
      smtp = record c.notifier.smtp {
        to =
            flatten_csv-same (flatten_csv c.notifier.smtp.to)
              (flatten_csv-IsAddress c.notifier.smtp.to) i;
      };
      dry_run = record {
        html_path = or_text_idem (codes "state/last-email.html") c.notifier.dry_run.html_path i;
      };
    };
    state = record {
      backend = or_text_idem (codes "file") c.state.backend i;
      path = or_text_idem (codes "state/alerts.json") c.state.path i;
    };
    inventory = record {
      backend = or_text_idem (codes "file") c.inventory.backend i;
      path = or_text_idem (codes "state/inventory.json") c.inventory.path i;
    };
  },
  flatten_csv-IsAddress c.notifier.smtp.to,
)
