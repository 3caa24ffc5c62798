-- ===== src/Base/Codec.antt =====
-- `encoding/json` for one type, as far as the program relies on it: the two functions, and that
-- what was written is read back and is not the empty text.
use auto_cert.Base.Text.{Text}
use auto_cert.Base.Result.{Result, ok}
use mathlib.Core.Path.{◌≡◌}
use mathlib.Core.List.{[]}
use mathlib.Core.Logic.{◌≢◌}

pub record Codec (A : Type 0) : Type 0 where
  pub marshal : A → Result Text
  pub unmarshal : Text → Result A

pub record IsFaithful {A : Type 0} (c : Codec A) : Type 0 where
  pub unmarshal-marshal : (a : A) (t : Text) → c.marshal a ≡ ok t → c.unmarshal t ≡ ok a
  pub not_empty : (a : A) (t : Text) → c.marshal a ≡ ok t → t ≢ []
