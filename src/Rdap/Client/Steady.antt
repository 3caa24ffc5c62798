-- ===== src/Rdap/Client/Steady.antt =====
-- The client as a looker: its answers do not depend on what was looked up before, once the network
-- answers a request alike whenever it is sent.
use auto_cert.Base.{◌≡◌, ap, list_eq, nat_eq}
use auto_cert.Base.Text.{Text}
use auto_cert.Http.{Web}
use auto_cert.Time.{Time}
use auto_cert.Rdap.Looker.{Looker, IsSteady}
use auto_cert.Rdap.Client.{Client, Decoders, load_bootstrap, client_lookup, info_of, resolve}
use auto_cert.Rdap.Client.Bootstrap.{load_bootstrap-done, load_bootstrap-again}

module _ (dec : Decoders) (web : Web) (now : Text → Time) where
  -- `*Client`, with the time at which each domain is looked up.
  abbrev pub client_looker : Looker
  client_looker = record {
    State = Client;
    look = λ domain. client_lookup dec web (now domain) domain;
  }

  load_bootstrap_twice :
      (c : Client) → load_bootstrap dec web (load_bootstrap dec web c) ≡ load_bootstrap dec web c
  load_bootstrap_twice c =
      load_bootstrap-again dec web (load_bootstrap dec web c) (load_bootstrap-done dec web c)

  pub client_looker-IsSteady : IsSteady client_looker
  unfolding client_lookup
  client_looker-IsSteady = record {
    steady = λ a b c la lb apart.
        ap (λ k. info_of (now a) a (resolve dec web k a)) (load_bootstrap_twice c);
  }
