-- ===== src/Python.antt =====
-- What the integration uses of the Python language and its standard library: exceptions as
-- results, JSON documents, truth values, instants, and the text services that stay abstract.
pub mod Documents
pub mod Time
pub mod Sample
use ha_reolink_battery.Base.{◌≡◌, String, List, Option, none, some, ◌==◌, false, ℤ}
use Documents.{Json}
use Time.{Stamp}

-- The exceptions that the modelled handlers tell apart. `overflow_error` stands for
-- `OverflowError` and `OSError`, which every handler lists together.
pub data Exc : Type 0 where
  key_error type_error value_error overflow_error : Exc

pub data Result {ℓ} (A : Type ℓ) : Type ℓ where
  ok : A → Result A
  raise : Exc → Result A

infixl 5 ◌>>=◌
abbrev pub ◌>>=◌ {ℓ κ} : {A : Type ℓ} {B : Type κ} → Result A → (A → Result B) → Result B
ok a >>= f = f a
raise e >>= f = raise e

-- Text services of the standard library, with the documented behaviour that the proofs use.
pub record Runtime : Type 0 where
  -- `datetime.fromisoformat`, `none` where it raises `ValueError`.
  pub fromisoformat : String → Option Stamp
  pub isoformat : Stamp → String
  -- `str(value)` of a value that is no text.
  pub show : Json → String
  -- `int(text)`, `none` where it raises `ValueError`.
  pub parse_int : String → Option ℤ
  -- `text.replace("Z", "+00:00")`
  pub replace_z : String → String
  pub upper : String → String
  pub strip : String → String
  pub split_commas : String → List String

-- What `isoformat` promises: its text reads back, holds no letter Z and is not empty.
pub record IsIso (rt : Runtime) : Type 0 where
  pub reads_back : (s : Stamp) → rt.fromisoformat (rt.isoformat s) ≡ some s
  pub has_no_z : (s : Stamp) → rt.replace_z (rt.isoformat s) ≡ rt.isoformat s
  pub is_text : (s : Stamp) → (rt.isoformat s == "") ≡ false
