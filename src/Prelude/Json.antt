-- ===== src/Prelude/Json.antt =====
-- Values that `json.loads` gives, as far as the program looks into them: an array or another object
-- is its text and whether it has an element.
use Prim.Native.Nat.{ℕ}
use Prim.Native.String.{String}
use mathlib.Core.Bool.{Bool, false, not}
use mathlib.Core.Option.{Option, none, some}
use url_copilot.Prelude.Tests.{nat_beq}
use url_copilot.Prelude.Keys.{Dict, nat_eq, string_eq, ◌==◌}

pub data Value : Type 0 where
  null : Value
  boolean : Bool → Value
  num : ℕ → Value
  text : String → Value
  composite : Bool → String → Value

abbrev pub Fields : Type 0
Fields = Dict String Value

-- `bool(v)`
abbrev pub truthy : Value → Bool
truthy null = false
truthy (boolean b) = b
truthy (num n) = not (nat_beq n 0)
truthy (text s) = not (s == "")
truthy (composite filled s) = filled

-- `d.get(k)` where a missing key and null are the same
abbrev pub or_null : Option Value → Value
or_null none = null
or_null (some v) = v
