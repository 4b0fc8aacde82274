-- ===== src/Trace/Members.antt =====
-- Which members InjectTraceContext leaves in a payload.
use fast_platform_modular.Base.{
  ◌||◌, String, ◌≡◌, refl, Bool, false, Option, none, some, ◌∷◌, arith, ◌==◌, eq_iff, if◌then◌else◌,
  ap, ◌∙◌,
}
use fast_platform_modular.Json.{Json, object, Fields, field, end}
use fast_platform_modular.Trace.{
  Carrier, trace_context_key, put, put_all, encode, inject_trace_context,
}

-- What json.Unmarshal of an object into a map finds for the key `k`: the last member with it, and what was
-- there before if there is none.
unfoldable pub member_or : Option Json → String → Fields → Option Json
member_or before k end = before
member_or before k (field j v fs) = member_or (if k == j then some v else before) k fs

-- `fields[k]` of a map
unfoldable pub lookup : String → Fields → Option Json
lookup k end = none
lookup k (field j v fs) = let rest = lookup k fs in if k == j then some v else rest

-- The object has a member with the key.
unfoldable pub has_member : String → Fields → Bool
has_member k end = false
has_member k (field j v fs) = k == j || has_member k fs

pub lookup-missing : (k : String) (fs : Fields) → has_member k fs ≡ false → lookup k fs ≡ none
unfolding lookup has_member
lookup-missing k end h = refl
lookup-missing k (field j v fs) h = ground (arith, h, lookup-missing k fs)

pub member_or-missing :
    (before : Option Json) (k : String) (fs : Fields)
    → has_member k fs ≡ false
    → member_or before k fs ≡ before
unfolding member_or has_member
member_or-missing before k end h = refl
member_or-missing before k (field j v fs) h = ground (arith, h, member_or-missing before k fs)

lookup-put :
    (x k : String) (v : Json) (fs : Fields)
    → lookup x (put k v fs) ≡ (if x == k then some v else lookup x fs)
unfolding lookup put
lookup-put x k v end = refl
lookup-put x k v (field j w fs) =
    ground (arith, lookup-put x k v fs, eq_iff x k, eq_iff x j, eq_iff k j)

lookup-put_all :
    (x : String) (fs gs : Fields) → lookup x (put_all fs gs) ≡ member_or (lookup x fs) x gs
unfolding put_all member_or
lookup-put_all x fs end = refl
lookup-put_all x fs (field k v gs) =
    lookup-put_all x (put k v fs) gs ∙ ap (λ m. member_or m x gs) (lookup-put x k v fs)

-- With a span, the payload stays an object, which has the trace context under its key and each other
-- member as it was.
pub lookup-inject :
    (entry : String × String) (carrier : Carrier) (fields : Fields)
    → (out : Fields) × (inject_trace_context (entry ∷ carrier) (object fields) ≡ object out)
      × ((k : String)
          → lookup k out ≡ (
              if k == trace_context_key
              then some (object (encode (entry ∷ carrier)))
              else member_or none k fields))
unfolding inject_trace_context lookup
lookup-inject entry carrier fields = (
  put trace_context_key (object (encode (entry ∷ carrier))) (put_all end fields),
  refl,
  λ k.
      lookup-put k trace_context_key (object (encode (entry ∷ carrier))) (put_all end fields)
      ∙ ap (λ m. if k == trace_context_key then some (object (encode (entry ∷ carrier))) else m)
          (lookup-put_all k end fields),
)
