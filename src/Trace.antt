-- ===== src/Trace.antt =====
-- platform/context.go: the trace context in an event's payload. A Go map from strings is the list of
-- its entries in the order of the keys, which is the order in which encoding/json writes them.
pub mod RoundTrip
pub mod Members
use Prim.Native.Nat.{Ordering}
use Prim.Native.Char.{code}
use Prim.Native.String.{compare, [] as empty, ◌∷◌ as char}
use fast_platform_modular.Base.{
  ℕ, ◌+◌, String, Bool, true, false, ◌&&◌, Option, none, some, List, [], ◌∷◌, leb, nat_eq, ◌==◌,
  if◌then◌else◌,
}
use fast_platform_modular.Json.{Json, null, integer, float, text, array, object, Fields, field, end}

-- propagation.MapCarrier; what the propagator's Inject writes for a context is a parameter.
abbrev pub Carrier : Type 0
Carrier = List (String × String)

-- traceContextKey
abbrev pub trace_context_key : String
trace_context_key = "trace_context"

-- `fields[k] = v`
unfoldable pub put : String → Json → Fields → Fields
put k v end = field k v end
put k v (field j w fs) = elim (compare k j) [
  | Ordering.lt ↦ field k v (field j w fs)
  | Ordering.eq ↦ field k v fs
  | Ordering.gt ↦ field j w (put k v fs)
]

-- json.Unmarshal of an object into a map: a later member replaces an earlier one with its key.
unfoldable pub put_all : Fields → Fields → Fields
unfolding put
put_all fields end = fields
put_all fields (field k v rest) = put_all (put k v fields) rest

-- json.Marshal of the carrier
unfoldable pub encode : Carrier → Fields
encode [] = end
encode ((k, v) ∷ carrier) = field k (text v) (encode carrier)

inject : Carrier → Json → Json
unfolding put_all encode
inject carrier (object fields) =
    object (put trace_context_key (object (encode carrier)) (put_all end fields))
inject carrier payload = payload

-- InjectTraceContext, for a context whose span the propagator writes as `carrier`
unfoldable pub inject_trace_context : Carrier → Json → Json
unfolding inject
inject_trace_context [] payload = payload
inject_trace_context (entry ∷ carrier) payload = inject (entry ∷ carrier) payload

-- Letters of either case are equal. encoding/json compares a member's key with a field's name so.
lower : ℕ → ℕ
lower c = if leb b'A' c && leb c b'Z' then c + 32 else c

unfoldable pub eq_fold : String → String → Bool
unfolding lower
eq_fold empty empty = true
eq_fold empty (char d t) = false
eq_fold (char c s) empty = false
eq_fold (char c s) (char d t) = nat_eq (lower (code c)) (lower (code d)) && eq_fold s t

-- `carrier[k] = v`
unfoldable pub put_entry : String → String → Carrier → Carrier
put_entry k v [] = (k, v) ∷ []
put_entry k v ((j, w) ∷ c) = elim (compare k j) [
  | Ordering.lt ↦ (k, v) ∷ (j, w) ∷ c
  | Ordering.eq ↦ (k, v) ∷ c
  | Ordering.gt ↦ (j, w) ∷ put_entry k v c
]

-- json.Unmarshal of an object into a map[string]string that is there already; `none` is an error,
-- and a null is the empty text.
unfoldable pub decode : Carrier → Fields → Option Carrier
unfolding put_entry
decode c end = some c
decode c (field k (text v) rest) = decode (put_entry k v c) rest
decode c (field k null rest) = decode (put_entry k "" c) rest
decode c (field k _ rest) = none

decode_value : Carrier → Json → Option Carrier
unfolding decode
decode_value c (object fields) = decode c fields
decode_value c null = some []
decode_value c _ = none

-- json.Unmarshal into `envelope`: each member whose key is the field's name, in either case.
unfoldable pub envelope : Carrier → Fields → Option Carrier
unfolding decode_value eq_fold
envelope c end = some c
envelope c (field k v rest) =
    let ignored = envelope c rest in
    let read : Option Carrier = elim (decode_value c v) [
      | none ↦ none
      | some c' ↦ envelope c' rest
    ] in
    if eq_fold k trace_context_key then read else ignored

found : Option Carrier → Option Carrier
found none = none
found (some []) = none
found (some (entry ∷ c)) = some (entry ∷ c)

-- ExtractTraceContext: `none` is the context that was passed in, `some c` that context with the
-- remote span of the carrier `c`.
unfoldable pub extract_trace_context : Json → Option Carrier
unfolding envelope found
extract_trace_context (object fields) = found (envelope [] fields)
extract_trace_context _ = none
