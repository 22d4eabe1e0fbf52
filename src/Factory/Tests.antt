-- ===== src/Factory/Tests.antt =====
-- Runs of the registry, with a handler that keeps its configuration.
use kubemonitor.Common.{◌≡◌, refl, some, List, [], ◌∷◌, Text, codes, text_eq, lookup, insert}
use kubemonitor.Common.Int.{ℤ, pos}
use kubemonitor.Value.{int}
use kubemonitor.Sample.{SampleList, push_sample}
use kubemonitor.Writer.{ok}
use kubemonitor.Factory.{
  Handler, Registered, Factory, ConfigMap, new_handler_factory, gather, register_handler,
  get_handler, list,
}
use kubemonitor.Factory.Pairing.{Call, registers, gathers, step, steps, gather-steps}

abbrev redis : Text
redis = codes "redis"

abbrev pushed : SampleList ℤ → SampleList ℤ
pushed l = push_sample redis (codes "up") (int (pos 1)) [] l

abbrev toy_handler : Handler ConfigMap ℤ
toy_handler = record { name = redis; init = λ cfg s. (ok, cfg); gather = λ s l. (ok, s, pushed l) }

abbrev registered : Registered ConfigMap ℤ
registered = record { handler = toy_handler; state = [] }

abbrev calls : List (Call ConfigMap ℤ)
calls = registers toy_handler [] ∷ gathers redis ∷ []

abbrev toy_factory : Factory ConfigMap ℤ
toy_factory = steps calls new_handler_factory

gather-steps_example :
    (l : SampleList ℤ) × (list redis toy_factory ≡ some l)
    × ((gather redis toy_factory).0 ≡ ok)
    × (list redis (gather redis toy_factory).1 ≡ some (pushed l))
unfolding steps step gather register_handler get_handler lookup insert text_eq
gather-steps_example = gather-steps calls redis {r = registered} refl
