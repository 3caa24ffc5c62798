-- ===== src/Rdap/Client/Bootstrap.antt =====
-- A run of lookups: the bootstrap is tried once, and all of them answer by what it found.
use auto_cert.Base.{◌≡◌, refl, inl, inr, true, List, [], ◌∷◌, list_eq, nat_eq, arith, Bool-cases}
use auto_cert.Base.Text.{Text}
use auto_cert.Base.Result.{Result, ok, err}
use auto_cert.Http.{Web}
use auto_cert.Model.{DomainInfo}
use auto_cert.Time.{Time}
use auto_cert.Rdap.Client.{
  Client, Decoders, load_bootstrap, bootstrapped_with, fetch_endpoints, resolve, info_of,
  client_lookup, Endpoints,
}

-- A call of `Lookup`, with what the network answers to it.
pub record Call : Type 0 where
  pub web : Web
  pub now : Time
  pub domain : Text

module _ (dec : Decoders) where
  -- The calls in the order in which they pass the bootstrap.
  unfoldable pub look_up_all : List Call → Client → List DomainInfo × Client
  unfolding client_lookup
  look_up_all [] c = ([], c)
  look_up_all (call ∷ calls) c =
      let (info, c') = client_lookup dec call.web call.now call.domain c in
      let (infos, c'') = look_up_all calls c' in (info ∷ infos, c'')

  -- The answer to a call by a client that tried its bootstrap.
  abbrev pub answer_by : Client → Call → DomainInfo
  answer_by c call = info_of call.now call.domain (resolve dec call.web c call.domain)

  bootstrapped_with-done :
      (c : Client) (r : Result Endpoints) → (bootstrapped_with dec c r).bootstrapped ≡ true
  bootstrapped_with-done c (err e) = refl
  bootstrapped_with-done c (ok m) = refl

  pub load_bootstrap-done :
      (web : Web) (c : Client) → (load_bootstrap dec web c).bootstrapped ≡ true
  unfolding load_bootstrap
  load_bootstrap-done web c = elim (Bool-cases c.bootstrapped) [
    | inl h ↦ ground arith
    | inr h ↦ ground (arith, bootstrapped_with-done c (fetch_endpoints dec web))
  ]

  pub load_bootstrap-again :
      (web : Web) (c : Client) → c.bootstrapped ≡ true → load_bootstrap dec web c ≡ c
  unfolding load_bootstrap
  load_bootstrap-again web c h = ground arith

  module _ (c : Client) (call : Call) (calls : List Call) where
    abbrev pub booted : Client
    booted = load_bootstrap dec call.web c
