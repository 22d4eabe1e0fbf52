-- ===== src/Factory.antt =====
-- pkg/input: the registry of handlers with the list that each gathers into, and the configuration
-- maps that they are initialised from.
pub mod Pairing
pub mod Slices
pub mod Tests
use kubemonitor.Common.{
  Bool, false, Option, none, some, List, [], ◌∷◌, ◌++◌, Text, split, Map, lookup, insert,
}
use kubemonitor.Common.Int.{ℤ, pos}
use kubemonitor.Strconv.{parse_bool}
use kubemonitor.Value.{Floats}
use kubemonitor.Conv
use kubemonitor.SafeList.{new_safe_list, pop_back_all}
use kubemonitor.Sample.{Sample, SampleList}
use kubemonitor.Writer.{Outcome, ok, failed}

abbrev pub ConfigMap : Type 0
ConfigMap = Map Text

-- `c[key]`: the empty string where there is none.
unfoldable pub get : ConfigMap → Text → Text
get c key = elim (lookup key c) [ some v ↦ v | none ↦ [] ]

unfoldable pub parse_slice : ConfigMap → Text → List Text
unfolding get
parse_slice c key = split (get c key) b','

unfoldable pub parse_bool_key : ConfigMap → Text → Bool
unfolding get
parse_bool_key c key = elim (get c key) [
  | [] ↦ false
  | x ∷ v ↦ elim (parse_bool (x ∷ v)) [ some b ↦ b | none ↦ false ]
]

-- `ParseInt` drops the error, and with it returns 0.
unfoldable pub parse_int_key : {F : Type 0} → Floats F → ConfigMap → Text → ℤ
unfolding get
parse_int_key fl c key = elim (Conv.text_to_int fl (get c key)) [ some i ↦ i | none ↦ pos 0 ]

-- The interface `HandlerFactory`, over the fields `S` of the object behind it. `Init` and `Gather`
-- change the object, and `Gather` pushes into the list.
pub record Handler (S F : Type 0) : Type 0 where
  pub name : Text
  pub init : ConfigMap → S → Outcome × S
  pub gather : S → SampleList F → Outcome × S × SampleList F

-- A registered handler: one object for each model, which every monitor of the model shares.
pub record Registered (S F : Type 0) : Type 0 where
  pub handler : Handler S F
  pub state : S

pub record Factory (S F : Type 0) : Type 0 where
  pub root_list : Map (SampleList F)
  pub handlers : List (Handler S F)
  pub support_model : Map (Registered S F)

module _ {S F : Type 0} where
  abbrev pub new_handler_factory : Factory S F
  new_handler_factory = record { root_list = []; handlers = []; support_model = [] }

  unfoldable pub gather_into :
      Text → Registered S F → Outcome × S × SampleList F → Factory S F → Outcome × Factory S F
  gather_into model r (o, s, l) m = (
    o,
    record m {
      root_list = insert model l m.root_list;
      support_model = insert model (record r { state = s }) m.support_model;
    },
  )

  -- An unknown model, or one without a list, is an error.
  unfoldable pub gather : Text → Factory S F → Outcome × Factory S F
  unfolding gather_into
  gather model m = elim (lookup model m.support_model) [
    | none ↦ (failed, m)
    | some r ↦ elim (lookup model m.root_list) [
      | none ↦ (failed, m)
      | some l ↦ gather_into model r (r.handler.gather r.state l) m
    ]
  ]

  unfoldable pub get_handler : Text → Factory S F → Option (Registered S F)
  get_handler model m = lookup model m.support_model

  unfoldable pub init_config : Text → ConfigMap → Factory S F → Outcome × Factory S F
  init_config model cfg m = elim (lookup model m.support_model) [
    | none ↦ (failed, m)
    | some r ↦
        let (o, s) = r.handler.init cfg r.state in
        (o, record m { support_model = insert model (record r { state = s }) m.support_model })
  ]

  abbrev then_gather : Text → Outcome × Factory S F → Outcome × Factory S F
  then_gather model (ok, m) = gather model m
  then_gather model (err, m) = (err, m)

  unfoldable pub init_config_with_gather : Text → ConfigMap → Factory S F → Outcome × Factory S F
  init_config_with_gather model cfg m = then_gather model (init_config model cfg m)

  -- Under the lock. A second handler of a name takes the place of the first, with a new list.
  unfoldable pub register_handler : Handler S F → S → Factory S F → Factory S F
  register_handler h s m = record {
    root_list = insert h.name new_safe_list m.root_list;
    handlers = m.handlers ++ h ∷ [];
    support_model = insert h.name (record { handler = h; state = s }) m.support_model;
  }

  -- `PopBackAll` of a model's list: `none` is the error.
  unfoldable pub pop_back_all_of :
      Text → Factory S F → Option (List (Option (Sample F)) × Factory S F)
  pop_back_all_of model m = elim (lookup model m.root_list) [
    | none ↦ none
    | some l ↦ elim (pop_back_all l) [
      | none ↦ none
      | some (items, rest) ↦ some (items, record m { root_list = insert model rest m.root_list })
    ]
  ]

  unfoldable pub list : Text → Factory S F → Option (SampleList F)
  list model m = lookup model m.root_list
