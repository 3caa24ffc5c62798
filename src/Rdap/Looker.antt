-- ===== src/Rdap/Looker.antt =====
-- internal/rdap/enrich.go, `Looker`: what the enrichment asks for the expiry of a domain. An
-- implementation may keep a state, such as a bootstrap or a cache.
use auto_cert.Base.{◌≡◌, ◌≢◌}
use auto_cert.Base.Text.{Text, to_lower}
use auto_cert.Model.{DomainInfo}

pub record Looker : Type 1 where
  pub State : Type 0
  pub look : Text → State → DomainInfo × State

-- The answer for a domain does not depend on whether another one was looked up before, where both
-- are in lower case, as those are that the enrichment looks up.
pub record IsSteady (l : Looker) : Type 0 where
  pub steady :
      (a b : Text) (s : l.State)
      → to_lower a ≡ a
      → to_lower b ≡ b
      → a ≢ b
      → (l.look a (l.look b s).1).0 ≡ (l.look a s).0
