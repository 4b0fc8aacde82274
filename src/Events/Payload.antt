-- ===== src/Events/Payload.antt =====
-- The payloads of the outbox are of the types of events/events.go: what a consumer that decodes one into
-- the event's struct finds under the tags of its fields.
use fast_platform_modular.Base.{
  String, ◌≡◌, ◌≢◌, refl, ◌∙◌, Bool, true, false, ◌&&◌, Option, none, some, List, [], ◌∷◌, any,
  arith, ◌==◌, eq_iff, if◌then◌else◌,
}
use fast_platform_modular.Json.{Json, integer, float, text, object, Fields}
use fast_platform_modular.Trace.{Carrier, trace_context_key, inject_trace_context}
use fast_platform_modular.Trace.Members.{
  lookup, member_or, has_member, lookup-missing, member_or-missing, lookup-inject,
}
use fast_platform_modular.Events.{
  OrderRequested, OrderAccepted, requested_fields, requested_json, accepted_fields, accepted_json,
}

-- A field of a struct: string, int or int64, and float64.
pub data Kind : Type 0 where
  text_kind integer_kind float_kind : Kind

-- The member is there, and of the kind.
unfoldable is_kind : Kind → Option Json → Bool
is_kind text_kind (some (text s)) = true
is_kind integer_kind (some (integer n)) = true
is_kind float_kind (some (float bits)) = true
is_kind _ _ = false

-- The names of the tags and the kinds of the fields.
abbrev pub Shape : Type 0
Shape = List (String × Kind)

-- the tags of OrderRequested
abbrev pub requested_shape : Shape
requested_shape =
    ("eventId", text_kind)
    ∷ ("eventVersion", integer_kind)
    ∷ ("occurredAt", integer_kind)
    ∷ ("orderId", text_kind)
    ∷ ("riderId", text_kind)
    ∷ ("pickupLatitude", float_kind)
    ∷ ("pickupLongitude", float_kind)
    ∷ ("destinationLatitude", float_kind)
    ∷ ("destinationLongitude", float_kind)
    ∷ []

-- the tags of OrderAccepted
abbrev pub accepted_shape : Shape
accepted_shape =
    ("eventId", text_kind)
    ∷ ("eventVersion", integer_kind)
    ∷ ("occurredAt", integer_kind)
    ∷ ("orderId", text_kind)
    ∷ ("driverId", text_kind)
    ∷ []

-- Under each name of the shape there is a member of its kind.
unfoldable pub is_typed : (String → Option Json) → Shape → Bool
unfolding is_kind
is_typed find [] = true
is_typed find ((name, kind) ∷ shape) = is_kind kind (find name) && is_typed find shape

abbrev has_name : String → Shape → Bool
has_name k shape = any (λ f. k == f.0) shape

-- An object with these members, and no other but the trace context.
pub record IsOf (shape : Shape) (p : Json) : Type 0 where
  pub fields : Fields
  pub is_object : p ≡ object fields
  pub typed : is_typed (λ k. lookup k fields) shape ≡ true
  pub closed :
      (k : String) → k ≢ trace_context_key → has_name k shape ≡ false → lookup k fields ≡ none

-- The test looks at the names of the shape only.
is_typed-eq :
    (find found : String → Option Json) (shape : Shape)
    → ((k : String) → k == trace_context_key ≡ false → find k ≡ found k)
    → any (λ f. f.0 == trace_context_key) shape ≡ false
    → is_typed find shape ≡ is_typed found shape
unfolding is_typed
is_typed-eq find found [] same plain = refl
is_typed-eq find found ((name, kind) ∷ shape) same plain =
    let here : find name ≡ found name = same name (ground (arith, plain)) in
    let rest = is_typed-eq find found shape same (ground (arith, plain)) in rw (here, rest) refl

not_the_context :
    (k : String) (context rest : Option Json)
    → k == trace_context_key ≡ false
    → (if k == trace_context_key then context else rest) ≡ rest
not_the_context k context rest other = rw other refl

-- What is typed stays so when the trace context is stored in it.
inject-IsOf :
    (shape : Shape) (fields : Fields) (carrier : Carrier)
    → is_typed (λ k. lookup k fields) shape ≡ true
    → is_typed (λ k. member_or none k fields) shape ≡ true
    → any (λ f. f.0 == trace_context_key) shape ≡ false
    → ((k : String) → has_member k fields ≡ has_name k shape)
    → IsOf shape (inject_trace_context carrier (object fields))
unfolding inject_trace_context
inject-IsOf shape fields [] first last plain names = record {
  fields = fields;
  is_object = refl;
  typed = first;
  closed = λ k other missing. lookup-missing k fields (names k ∙ missing);
}
inject-IsOf shape fields (entry ∷ carrier) first last plain names =
    let (out, same, found) = lookup-inject entry carrier fields in
    record {
      fields = out;
      is_object = same;
      typed =
          is_typed-eq (λ k. lookup k out) (λ k. member_or none k fields) shape
            (λ k other. found k ∙ not_the_context k _ _ other) plain
          ∙ last;
      closed = λ k other missing.
          found k
          ∙ not_the_context k _ _ (ground (arith, other, eq_iff k trace_context_key))
          ∙ member_or-missing none k fields (names k ∙ missing);
    }

pub requested-IsOf :
    (carrier : Carrier) (e : OrderRequested)
    → IsOf requested_shape (inject_trace_context carrier (requested_json e))
unfolding requested_json requested_fields lookup member_or has_member is_typed
requested-IsOf carrier e =
    inject-IsOf requested_shape (requested_fields e) carrier refl refl refl (λ k. refl)

pub accepted-IsOf :
    (carrier : Carrier) (e : OrderAccepted)
    → IsOf accepted_shape (inject_trace_context carrier (accepted_json e))
unfolding accepted_json accepted_fields lookup member_or has_member is_typed
accepted-IsOf carrier e =
    inject-IsOf accepted_shape (accepted_fields e) carrier refl refl refl (λ k. refl)
