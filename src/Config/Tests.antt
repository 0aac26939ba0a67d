-- ===== src/Config/Tests.antt =====
-- The configuration of an environment that sets nothing.
use order_processing_system.Base.{◌≡◌, refl, none, []}
use order_processing_system.Base.Int.{ℤ, pos}
use order_processing_system.Models.{Text, Float64, ok}
use order_processing_system.Config.Load.{Viper, Value, text, int, float, get, lookup, config, load}

abbrev as_text : Value → Text
as_text (text s) = s
as_text (int n) = []
as_text (float x) = []

abbrev as_int : Value → ℤ
as_int (text s) = pos 0
as_int (int n) = n
as_int (float x) = pos 0

abbrev as_float : Value → Float64
as_float (text s) = 0
as_float (int n) = 0
as_float (float x) = x

abbrev bare : Viper
bare = record {
  setting = λ key. none;
  to_string = as_text;
  to_int = as_int;
  to_duration = λ v. pos 0;
  to_float64 = as_float;
  to_string_text = λ s. refl;
  to_int_int = λ n. refl;
}

bare_loads : load bare ≡ ok (config bare)
unfolding load get lookup
bare_loads = refl
