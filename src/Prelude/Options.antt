-- ===== src/Prelude/Options.antt =====
-- Python's truth tests and `or` on optional texts: `None` and `""` are both false.
use Prim.Native.String.{String}
use mathlib.Core.Bool.{Bool, false, not}
use mathlib.Core.Option.{Option, none, some}
use k8s_check.Prelude.Tests.{if◌then◌else◌}
use k8s_check.Prelude.Equality.{◌==◌, string_eq}

-- `bool(value)`
abbrev pub truthy : Option String → Bool
truthy none = false
truthy (some s) = not (s == "")

-- `value or other`
abbrev pub or_else : Option String → Option String → Option String
or_else none other = other
or_else (some s) other = if s == "" then other else some s

-- `value or text`
abbrev pub or_text : Option String → String → String
or_text none text = text
or_text (some s) text = if s == "" then text else s

-- `d.get(k, default)` on a value that was looked up
abbrev pub get_or {ℓ} : {A : Type ℓ} → Option A → A → A
get_or none a = a
get_or (some b) a = b
