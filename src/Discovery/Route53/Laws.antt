-- ===== src/Discovery/Route53/Laws.antt =====
-- Loops over the pages of a listing: what each round keeps, and what a round brings about.
use mathlib.Core.List.{Mem, mem-cons, not-mem-nil}
use mathlib.Core.Logic.Or
use auto_cert.Base.{
  subst, Bool, true, false, Option, none, some, List, [], ◌∷◌, ◌⊎◌, inl, inr, if◌then◌else◌,
}
use auto_cert.Base.Text.{Text}
use auto_cert.Model.{Error}
use auto_cert.Discovery.Hosts.{is_excluded, is_monitorable_host}
use auto_cert.Discovery.Collector.{Found}
use auto_cert.Discovery.Route53.{
  Pages, finished, broken, page, RecordSet, HostedZone, Aws, each_item, each, add, add_registered,
  add_record, add_zone, has_host, zone_name, collect_registered_domains, enumerate_records,
  collect_hosted_zones, add_named, add_records,
}

-- The item is on a page that the listing comes to.
abbrev pub InPages : {A : Type 0} → A → Pages A → Type 0
InPages x finished = ⊥
InPages x (broken e) = ⊥
InPages x (page items rest) = Mem x items ⊎ InPages x rest

module _ {A S : Type 0} (step : A → S → S) (P : S → Type 0)
    (keeps : (x : A) (s : S) → P s → P (step x s)) where
  each_item-keeps : (xs : List A) (s : S) → P s → P (each_item step xs s)
  each_item-keeps [] s h = h
  each_item-keeps (x ∷ xs) s h = each_item-keeps xs (step x s) (keeps x s h)

  -- What every round keeps, the loop keeps.
  pub each-keeps : (pages : Pages A) (s : S) → P s → P (each step pages s).0
  each-keeps finished s h = h
  each-keeps (broken e) s h = h
  each-keeps (page items rest) s h =
      each-keeps rest (each_item step items s) (each_item-keeps items s h)

module _ {A S : Type 0} (step : A → S → S) (I P : S → Type 0)
    (same : (x : A) (s : S) → I s → I (step x s)) (keeps : (x : A) (s : S) → P s → P (step x s))
    (prop : (s : S) → IsProp (P s)) (x : A) (reaches : (s : S) → I s → P (step x s)) where
  each_item-reaches : (xs : List A) (s : S) → Mem x xs → I s → P (each_item step xs s)
  each_item-reaches [] s m i = absurd (not-mem-nil m)
  each_item-reaches (y ∷ xs) s m i =
      Or.elim (prop (each_item step xs (step y s))) (mem-cons.0 m)
        (λ here.
          each_item-keeps step P keeps xs (step y s) (subst (λ z. P (step z s)) here (reaches s i)))
        (λ later. each_item-reaches xs (step y s) later (same y s i))

  -- What the round of one item brings about stands at the end of a loop that comes to the item.
  pub each-reaches : (pages : Pages A) (s : S) → InPages x pages → I s → P (each step pages s).0
  each-reaches finished s m i = absurd m
  each-reaches (broken e) s m i = absurd m
  each-reaches (page items rest) s (inl here) i =
      each-keeps step P keeps rest (each_item step items s) (each_item-reaches items s here i)
  each-reaches (page items rest) s (inr later) i =
      each-reaches rest (each_item step items s) later (each_item-keeps step I same items s i)

pub if-keeps :
    {S : Type 0} {yes_state no_state : S} (Good : S → Type 0) (test : Bool)
    → Good yes_state
    → Good no_state
    → Good (if test then yes_state else no_state)
if-keeps Good true good _ = good
if-keeps Good false _ good = good

module _ (zones : List Text) (aws : Aws) (P : Found → Type 0)
    (k : (raw : Text) (f : Found) → P f → P (add zones raw f)) where
  pub add_registered-keeps : (n : Option Text) (f : Found) → P f → P (add_registered zones n f)
  add_registered-keeps none f h = h
  add_registered-keeps (some n) f h = k n f h

  pub add_named-keeps : (n : Option Text) (f : Found) → P f → P (add_named zones n f)
  add_named-keeps none f h = h
  add_named-keeps (some n) f h = if-keeps P (is_monitorable_host n) (k n f h) h

  pub add_record-keeps : (rec : RecordSet) (f : Found) → P f → P (add_record zones rec f)
  add_record-keeps rec f h = if-keeps P (has_host rec) (add_named-keeps rec.name f h) h

  pub enumerate_records-keeps :
      (id : Text) (f : Found) → P f → P (enumerate_records zones aws id f).0
  unfolding enumerate_records
  enumerate_records-keeps id =
      each-keeps (add_record zones) P add_record-keeps (aws.list_records id)

  pub add_records-keeps :
      (id : Option Text) (f : Found) (first : Error) → P f → P (add_records zones aws id f first).0
  add_records-keeps none f first h = h
  add_records-keeps (some id) f first h = enumerate_records-keeps id f h

  abbrev Kept : Found × Error → Type 0
  Kept s = P s.0

  pub add_zone-keeps : (z : HostedZone) (s : Found × Error) → Kept s → Kept (add_zone zones aws z s)
  add_zone-keeps z (f, first) h = if-keeps Kept z.private_zone h (
      if-keeps Kept (is_excluded zones (zone_name z)) h
        (add_records-keeps z.id (add zones (zone_name z) f) first (k (zone_name z) f h)))

  pub collect_registered_domains-keeps :
      (f : Found) → P f → P (collect_registered_domains zones aws f).0
  unfolding collect_registered_domains
  collect_registered_domains-keeps =
      each-keeps (add_registered zones) P add_registered-keeps aws.list_domains

  pub collect_hosted_zones-keeps : (f : Found) → P f → P (collect_hosted_zones zones aws f).0
  unfolding collect_hosted_zones
  collect_hosted_zones-keeps f =
      each-keeps (add_zone zones aws) Kept add_zone-keeps aws.list_zones (f, none)
