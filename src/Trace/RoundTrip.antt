-- ===== src/Trace/RoundTrip.antt =====
-- What InjectTraceContext stores, ExtractTraceContext reads.
use Prim.Native.Nat.{Ordering}
use Prim.Native.String.{compare}
use fast_platform_modular.Base.{
  String, ◌≡◌, refl, false, none, some, [], ◌∷◌, ◌++◌, arith, All, append-nil, append_assoc, ap,
}
use mathlib.Core.Path.{◌≡⟨◌⟩◌, ◌∎}
use fast_platform_modular.Json.{Json, object, Fields, field, end}
use fast_platform_modular.Trace.{
  Carrier, trace_context_key, put, put_all, encode, inject_trace_context, eq_fold, put_entry,
  decode, envelope, extract_trace_context,
}

-- The entries are those of a map: each key comes after all before it.
abbrev IsOrdered : Carrier → Carrier → Type 0
IsOrdered before [] = Unit
IsOrdered before ((k, v) ∷ rest) =
    All (λ e. compare k e.0 ≡ Ordering.gt) before × IsOrdered (before ++ (k, v) ∷ []) rest

-- No member could be read as a trace context.
abbrev IsUntraced : Fields → Type 0
IsUntraced end = Unit
IsUntraced (field k v rest) = (eq_fold k trace_context_key ≡ false) × IsUntraced rest

put_entry-last :
    (k v : String) (c : Carrier)
    → All (λ e. compare k e.0 ≡ Ordering.gt) c
    → put_entry k v c ≡ c ++ (k, v) ∷ []
unfolding put_entry
put_entry-last k v [] h = refl
put_entry-last k v ((j, w) ∷ c) (h, hs) = ground (arith, put_entry-last k v c hs)

decode-encode : (c d : Carrier) → IsOrdered c d → decode c (encode d) ≡ some (c ++ d)
unfolding decode encode
decode-encode c [] h = rw append-nil
decode-encode c ((k, v) ∷ d) (h, hs) =
    decode (put_entry k v c) (encode d)
    ≡⟨ ap (λ b. decode b (encode d)) (put_entry-last k v c h) ⟩ decode (c ++ (k, v) ∷ []) (encode d)
    ≡⟨ decode-encode (c ++ (k, v) ∷ []) d hs ⟩ some ((c ++ (k, v) ∷ []) ++ d)
    ≡⟨ (simp append_assoc) ⟩ some (c ++ (k, v) ∷ d) ∎

IsUntraced-put :
    (k : String) (v : Json) (fs : Fields)
    → eq_fold k trace_context_key ≡ false
    → IsUntraced fs
    → IsUntraced (put k v fs)
unfolding put
IsUntraced-put k v end h hs = (h, tt)
IsUntraced-put k v (field j w fs) h (p, hs) = ground (arith, IsUntraced-put k v fs h hs)

IsUntraced-put_all : (fs gs : Fields) → IsUntraced fs → IsUntraced gs → IsUntraced (put_all fs gs)
unfolding put_all
IsUntraced-put_all fs end h k = h
IsUntraced-put_all fs (field j w gs) h (p, hs) =
    IsUntraced-put_all (put j w fs) gs (IsUntraced-put j w fs p h) hs

envelope-IsUntraced : (c : Carrier) (fs : Fields) → IsUntraced fs → envelope c fs ≡ some c
unfolding envelope
envelope-IsUntraced c end h = refl
envelope-IsUntraced c (field k v fs) (h, hs) = ground (arith, envelope-IsUntraced c fs hs)

envelope-key :
    (d : Carrier) (fs : Fields)
    → IsOrdered [] d
    → IsUntraced fs
    → envelope [] (field trace_context_key (object (encode d)) fs) ≡ some d
unfolding envelope
envelope-key d fs h k = rw (decode-encode [] d h) (envelope-IsUntraced d fs k)

envelope-put :
    (d : Carrier) (fs : Fields)
    → IsOrdered [] d
    → IsUntraced fs
    → envelope [] (put trace_context_key (object (encode d)) fs) ≡ some d
unfolding envelope put
envelope-put d end h k = envelope-key d end h tt
envelope-put d (field j w fs) h (p, k) =
    ground
      (arith, envelope-key d (field j w fs) h (p, k), envelope-key d fs h k, envelope-put d fs h k)

-- A trace context of one entry or more, in the order of its keys, that was stored in an object payload
-- is read back, if no member of the payload has the reserved key, in any case.
pub extract-inject :
    (entry : String × String) (carrier : Carrier) (fields : Fields)
    → IsOrdered [] (entry ∷ carrier)
    → IsUntraced fields
    → extract_trace_context (inject_trace_context (entry ∷ carrier) (object fields))
      ≡ some (entry ∷ carrier)
unfolding extract_trace_context inject_trace_context
extract-inject entry carrier fields h k =
    rw (envelope-put (entry ∷ carrier) (put_all end fields) h (IsUntraced-put_all end fields tt k))

-- A context without a span leaves the payload as it is, and nothing is read from it.
extract-inject_nothing :
    (fields : Fields)
    → IsUntraced fields
    → (inject_trace_context [] (object fields) ≡ object fields)
      × (extract_trace_context (object fields) ≡ none)
unfolding extract_trace_context inject_trace_context
extract-inject_nothing fields h = (refl, rw (envelope-IsUntraced [] fields h))
