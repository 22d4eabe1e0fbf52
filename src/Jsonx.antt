-- ===== src/Jsonx.antt =====
-- pkg/jsonx/jsonflattener.go: the scalars of nested JSON objects, as fields with joined names.
pub mod Paths
pub mod Numbers
pub mod Tests
use kubemonitor.Common.{Bool, false, ◌∷◌, ◌++◌, ◌==◌, if◌then◌else◌, length, Text, Map, insert}
use kubemonitor.Value
use kubemonitor.Value.{Value, float64}
use kubemonitor.Writer.{Outcome, ok, failed, panicked}

-- What `encoding/json` decodes into an `interface{}`; `unexpected` is a value of any other type.
mutual
  pub data Json (F : Type 0) : Type 0 where
    object : Members F → Json F
    array : Items F → Json F
    number : F → Json F
    str : Text → Json F
    boolean : Bool → Json F
    null : Json F
    unexpected : Json F

  pub data Members (F : Type 0) : Type 0 where
    end : Members F
    member : Text → Json F → Members F → Members F

  pub data Items (F : Type 0) : Type 0 where
    nil : Items F
    item : Json F → Items F → Items F

-- The name of a member of the value of that name.
unfoldable pub field_key : Text → Text → Text
field_key fieldname k = if length fieldname == 0 then k else fieldname ++ b'_' ∷ k

unfoldable pub and_then :
    {F : Type 0}
    → Outcome × Map (Value F)
    → (Map (Value F) → Outcome × Map (Value F))
    → Outcome × Map (Value F)
and_then (ok, fields) go = go fields
and_then (failed, fields) go = (failed, fields)
and_then (panicked, fields) go = (panicked, fields)

-- `FullFlattenJSON`, from the fields to the fields; an error keeps those that are there by then.
-- The members of an object come in the order of its range, and an array is skipped.
unfoldable mutual
  unfolding and_then

  pub full_flatten_json :
      {F : Type 0} → Text → Json F → Bool → Bool → Map (Value F) → Outcome × Map (Value F)
  full_flatten_json fieldname (object ms) cs cb fields = flatten_members fieldname ms cs cb fields
  full_flatten_json fieldname (array xs) cs cb fields = (ok, fields)
  full_flatten_json fieldname (number t) cs cb fields = (ok, insert fieldname (float64 t) fields)
  full_flatten_json fieldname (str t) cs cb fields =
      (ok, if cs then insert fieldname (Value.text t) fields else fields)
  full_flatten_json fieldname (boolean t) cs cb fields =
      (ok, if cb then insert fieldname (Value.bool t) fields else fields)
  full_flatten_json fieldname null cs cb fields = (ok, fields)
  full_flatten_json fieldname unexpected cs cb fields = (failed, fields)

  pub flatten_members :
      {F : Type 0} → Text → Members F → Bool → Bool → Map (Value F) → Outcome × Map (Value F)
  flatten_members fieldname end cs cb fields = (ok, fields)
  flatten_members fieldname (member k v ms) cs cb fields =
      and_then (full_flatten_json (field_key fieldname k) v cs cb fields)
        (flatten_members fieldname ms cs cb)

unfoldable pub flatten_json : {F : Type 0} → Text → Json F → Map (Value F) → Outcome × Map (Value F)
flatten_json fieldname v fields = full_flatten_json fieldname v false false fields
