-- ===== src/Shared/Json.antt =====
-- JSON values, as Python's `json` reads them, and the truth value that Python gives them. `num` is an
-- integer from zero on, `negative n` is -(n + 1), and `float s m e` is a number with a fraction or an
-- exponent, of the sign s and the value m / 10 ^ e.
use nautobot_app_remote_jobs.Shared.Tests.{◌==◌}
use Prim.Native.Nat.{ℕ}
use Prim.Native.String.{String}
use mathlib.Core.Bool.{Bool, true, false, not}
use text.Mathlib.Text.{◌==◌ as str_eq}

mutual
  pub data Json : Type 0 where
    null : Json
    bool : Bool → Json
    num : ℕ → Json
    negative : ℕ → Json
    float : Bool → ℕ → ℕ → Json
    str : String → Json
    arr : Items → Json
    obj : Fields → Json

  pub data Items : Type 0 where
    nil : Items
    cons : Json → Items → Items

  pub data Fields : Type 0 where
    end : Fields
    field : String → Json → Fields → Fields

-- Python's `bool(value)`.
abbrev pub truthy : Json → Bool
truthy null = false
truthy (bool b) = b
truthy (num n) = not (n == 0)
truthy (negative n) = true
truthy (float s m e) = not (m == 0)
truthy (str s) = not (str_eq s "")
truthy (arr nil) = false
truthy (arr (cons x xs)) = true
truthy (obj end) = false
truthy (obj (field k v fs)) = true
