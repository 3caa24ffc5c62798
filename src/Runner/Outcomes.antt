-- ===== src/Runner/Outcomes.antt =====
-- What a run has done when it ends, on each of its paths.
use auto_cert.Base.{
  ◌≡◌, refl, sym, ap, ◌∙◌, Bool, true, false, none, some, List, [], ◌∷◌, ◌++◌, inl, inr,
  Option-cases, Bool-cases, if◌then◌else◌, is_none, not, ◌&&◌,
}
use auto_cert.Base.Members.{collect}
use mathlib.Core.List.{append-nil, append_assoc}
use mathlib.Core.Path.{ap₂}
use auto_cert.Base.Text.{codes}
use auto_cert.Base.Result.{Result, ok, err}
use auto_cert.Model.{Alert, Error}
use auto_cert.Discovery.{Finished}
use auto_cert.Runner.{
  Deps, Event, Trace, flushed, inventoried, notified, saved, success, failure, alerts, save_state,
  deliver, after_filter, flush_events, pipeline, unless_idle, ping, with_ping, run, snapshot,
}

-- The alerts that a mail shows.
abbrev pub mail_of : Event → List (List Alert)
mail_of flushed = []
mail_of (inventoried s e) = []
mail_of (notified shown s a) = shown ∷ []
mail_of (saved f) = []
mail_of success = []
mail_of failure = []

-- The alerts that the store is asked to remember.
abbrev pub save_of : Event → List (List Alert)
save_of flushed = []
save_of (inventoried s e) = []
save_of (notified shown s a) = []
save_of (saved f) = f ∷ []
save_of success = []
save_of failure = []

-- A ping: true for success.
abbrev pub ping_of : Event → List Bool
ping_of flushed = []
ping_of (inventoried s e) = []
ping_of (notified shown s a) = []
ping_of (saved f) = []
ping_of success = true ∷ []
ping_of failure = false ∷ []

-- The alerts that are news: none where the store fails.
abbrev pub news : Result (List Alert) → List Alert
news (err e) = []
news (ok fresh) = fresh

-- A list of one, or none, by a test.
abbrev pub only_if {ℓ} : {A : Type ℓ} → Bool → A → List A
only_if true a = a ∷ []
only_if false a = []

abbrev pub is_empty {ℓ} : {A : Type ℓ} → List A → Bool
is_empty [] = true
is_empty (x ∷ xs) = false

module _ (deps : Deps) where
  abbrev pub fresh : List Alert
  fresh = news (deps.state_filter (alerts deps))

  -- A part of the run sends these mails, remembers these alerts and does not ping.
  abbrev Does : List (List Alert) → List (List Alert) → Trace → Type 0
  Does sent kept t =
      (collect mail_of t.0 ≡ sent) × (collect save_of t.0 ≡ kept) × (collect ping_of t.0 ≡ [])

  save_state-Does :
      (f : List Alert) → Does [] (only_if (not deps.dry_run_skips_state_save) f) (save_state deps f)
  save_state-Does f = elim (Bool-cases deps.dry_run_skips_state_save) [
    | inl dry ↦ rw (dry, save_state) (refl, refl, refl)
    | inr wet ↦ elim (Option-cases (deps.state_save f)) [
      | inl done ↦ rw (wet, save_state) (rw (done, save_state) (refl, refl, refl))
      | inr (e, broken) ↦ rw (wet, save_state) (rw (broken, save_state) (refl, refl, refl))
    ]
  ]

  -- The mail goes out, in earnest.
  abbrev pub goes_on : Bool
  goes_on = is_none (deps.notify (alerts deps)) && not deps.dry_run_skips_state_save

  deliver-Does : (f : List Alert) → Does (alerts deps ∷ []) (only_if goes_on f) (deliver deps f)
  deliver-Does f = elim (Option-cases (deps.notify (alerts deps))) [
    | inl done ↦
        let (m, k, p) = save_state-Does f in rw (done, deliver) (ap (λ l. alerts deps ∷ l) m, k, p)
    | inr (e, broken) ↦ rw (broken, deliver) (refl, refl, refl)
  ]

  after_filter-Does :
      (r : Result (List Alert))
      → Does
          (only_if (not (is_empty (news r))) (alerts deps))
          (only_if (not (is_empty (news r)) && goes_on) (news r))
          (after_filter deps r)
  after_filter-Does (err e) = (refl, refl, refl)
  after_filter-Does (ok []) = (refl, refl, refl)
  after_filter-Does (ok (a ∷ f)) = deliver-Does (a ∷ f)

  flush-none :
      {B : Type 0} (g : Event → List B)
      → g flushed ≡ []
      → (es : List Event) → collect g (flush_events deps ++ es) ≡ collect g es
  flush-none g h es = elim (Bool-cases deps.has_cache) [
    | inl at ↦ rw (at, flush_events) (ap (λ l. l ++ collect g es) h)
    | inr at ↦ rw (at, flush_events) refl
  ]

  -- What a run does behind the discoverers: one mail with all alerts exactly if the store answers
  -- with news, and the news remembered exactly if the mail went out in earnest.
  pipeline-Does :
      Does
        (only_if (not (is_empty fresh)) (alerts deps))
        (only_if (not (is_empty fresh) && goes_on) fresh)
        (pipeline deps)
  pipeline-Does =
      let rest = after_filter deps (deps.state_filter (alerts deps)) in
      let (m, k, p) = after_filter-Does (deps.state_filter (alerts deps)) in
      let es = inventoried (snapshot deps) (deps.inventory_save (snapshot deps)) ∷ rest.0 in
      (
        flush-none mail_of refl es ∙ m,
        flush-none save_of refl es ∙ k,
        flush-none ping_of refl es ∙ p,
      )

  collect-ping :
      {B : Type 0} (g : Event → List B) (es : List Event) (e : Event)
      → collect g (es ++ e ∷ []) ≡ collect g es ++ g e
  collect-ping g [] e = append-nil (g e)
  collect-ping g (x ∷ es) e =
      ap (λ l. g x ++ l) (collect-ping g es e) ∙ sym (append_assoc (g x) (collect g es) (g e))

  ping-quiet :
      (e : Error)
      → (mail_of (ping deps e) ≡ [])
        × (save_of (ping deps e) ≡ [])
        × (ping_of (ping deps e) ≡ is_none e ∷ [])
  ping-quiet none = (refl, refl, refl)
  ping-quiet (some e) = (refl, refl, refl)

  -- With the ping at its end.
  with_ping-Does :
      (sent kept : List (List Alert)) (t : Trace)
      → Does sent kept t
      → (collect mail_of (with_ping deps t).0 ≡ sent)
        × (collect save_of (with_ping deps t).0 ≡ kept)
        × (collect ping_of (with_ping deps t).0 ≡ is_none t.1 ∷ [])
  with_ping-Does sent kept t (m, k, p) =
      let (qm, qk, qp) = ping-quiet t.1 in
      (
        collect-ping mail_of t.0 (ping deps t.1) ∙ ap₂ ◌++◌ m qm ∙ append-nil sent,
        collect-ping save_of t.0 (ping deps t.1) ∙ ap₂ ◌++◌ k qk ∙ append-nil kept,
        collect-ping ping_of t.0 (ping deps t.1) ∙ ap₂ ◌++◌ p qp,
      )

  -- There is a discoverer, and the store answers with alerts that are news.
  abbrev pub has_news : Bool
  has_news = not (is_empty deps.discoverers) && not (is_empty fresh)

  unless_idle-Does :
      (ds : List Finished)
      → Does
          (only_if (not (is_empty ds) && not (is_empty fresh)) (alerts deps))
          (only_if ((not (is_empty ds) && not (is_empty fresh)) && goes_on) fresh)
          (unless_idle deps ds)
  unless_idle-Does [] = (refl, refl, refl)
  unless_idle-Does (d ∷ ds) = pipeline-Does

  -- A run sends one mail, which shows all alerts, exactly if there is a discoverer and the store
  -- answers with news; it asks the store to remember the news, and once, exactly if that mail went
  -- out and it is no dry run; and it pings once, for success exactly if it ends without an error.
  pub run_outcome :
      (collect mail_of (run deps).0 ≡ only_if has_news (alerts deps))
      × (collect save_of (run deps).0 ≡ only_if (has_news && goes_on) fresh)
      × (collect ping_of (run deps).0 ≡ is_none (run deps).1 ∷ [])
  unfolding run
  run_outcome =
      with_ping-Does (only_if has_news (alerts deps)) (only_if (has_news && goes_on) fresh)
        (unless_idle deps deps.discoverers) (unless_idle-Does deps.discoverers)

  abbrev pub save_error : List Alert → Error
  save_error f =
      if deps.dry_run_skips_state_save
      then none
      else elim (deps.state_save f) [ none ↦ none | some e ↦ some (codes "state save: " ++ e) ]

  save_state-error : (f : List Alert) → (save_state deps f).1 ≡ save_error f
  save_state-error f = elim (Bool-cases deps.dry_run_skips_state_save) [
    | inl dry ↦ rw (dry, save_state) refl
    | inr wet ↦ elim (Option-cases (deps.state_save f)) [
      | inl done ↦ rw (wet, save_state) (rw (done, save_state) refl)
      | inr (e, broken) ↦ rw (wet, save_state) (rw (broken, save_state) refl)
    ]
  ]

  -- The error with which a run ends: the store's when it is asked for news, else, if there is
  -- news, the mail's, else the store's when it is to remember, which a dry run does not ask.
  abbrev pub expected_error : Result (List Alert) → Error
  expected_error (err e) = some (codes "state filter: " ++ e)
  expected_error (ok []) = none
  expected_error (ok (a ∷ f)) = elim (deps.notify (alerts deps)) [
    | some e ↦ some (codes "notify: " ++ e)
    | none ↦ save_error (a ∷ f)
  ]

  after_filter-error : (r : Result (List Alert)) → (after_filter deps r).1 ≡ expected_error r
  after_filter-error (err e) = refl
  after_filter-error (ok []) = refl
  after_filter-error (ok (a ∷ f)) = elim (Option-cases (deps.notify (alerts deps))) [
    | inr (e, broken) ↦ rw (broken, deliver, expected_error) refl
    | inl sent ↦ rw (sent, deliver, expected_error) (save_state-error (a ∷ f))
  ]

  -- A run with a discoverer ends with the error of the first of these steps that fails: asking the
  -- store for news, the mail, saving. No other step ends it with one, not saving the inventory.
  pub run_error :
      {d : Finished} {ds : List Finished}
      → deps.discoverers ≡ d ∷ ds
      → (run deps).1 ≡ expected_error (deps.state_filter (alerts deps))
  unfolding run
  run_error h =
      ap (λ l. (unless_idle deps l).1) h ∙ after_filter-error (deps.state_filter (alerts deps))
