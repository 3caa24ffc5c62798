-- ===== src/Http.antt =====
-- `net/http` as far as the program reads it: a request that may not be built or not be answered, the
-- status of an answer, and its body, which may fail to be read.
use auto_cert.Base.{ℕ}
use auto_cert.Base.Text.{Text}
use auto_cert.Base.Result.{Result}

pub record Response : Type 0 where
  pub status : ℕ
  pub body : Result Text

pub record Web : Type 0 where
  -- `http.NewRequestWithContext`
  pub new_request : Text → Result (Unit {0})
  -- `http.Client.Do`
  pub send : Text → Result Response
