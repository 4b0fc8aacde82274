-- ===== src/Middleware/RequestId.antt =====
-- The request ID: SanitizeRequestID, GenerateRequestID and requestID.
pub mod Sanitize
pub mod Generate
use Prim.Native.Char.{code}
use Prim.Native.String.{len, [] as empty, ◌∷◌ as char, ◌++◌ as append}
use text.Mathlib.TextLemmas.{nil-append, cons-append}
use fast_platform_modular.Base.{
  ℕ, zero, suc, ◌+◌, ◌/◌, ◌%◌, ◌≤◌, ◌<◌, String, ◌≡◌, ◌≢◌, refl, Bool, true, false, not, ◌&&◌, ◌||◌,
  ◌⊎◌, inl, inr, Option, none, some, List, [], ◌∷◌, concat, leb, ltb, nat_eq, trim_space, ◌==◌,
  eq_iff, if◌then◌else◌, arith, Bool-cases, All,
}
use fast_platform_modular.Middleware.{Incoming, Action, set_header, Run, Handler, Middleware, ◌▸◌}

-- RequestIDHeader
abbrev pub request_id_header : String
request_id_header = "X-Request-ID"

-- validIDChar
unfoldable pub valid_id_char : ℕ → Bool
valid_id_char r =
    (leb b'0' r && leb r b'9')
    || (leb b'a' r && leb r b'z')
    || (leb b'A' r && leb r b'Z')
    || nat_eq r b'-'
    || nat_eq r b'_'
    || nat_eq r b'.'

-- the loop of SanitizeRequestID over the runes
unfoldable pub all_valid : String → Bool
unfolding valid_id_char
all_valid empty = true
all_valid (char c s) =
    let rest = all_valid s in if not (valid_id_char (code c)) then false else rest

-- SanitizeRequestID; `len` counts bytes
unfoldable pub sanitize_request_id : String → String
sanitize_request_id raw =
    let id = trim_space raw in
    if nat_eq (len id) 0 || ltb 64 (len id) then "" else if all_valid id then id else ""

pub hex_digits : List String
hex_digits =
    "0" ∷ "1" ∷ "2" ∷ "3" ∷ "4" ∷ "5" ∷ "6" ∷ "7" ∷ "8" ∷ "9" ∷ "a" ∷ "b" ∷ "c" ∷ "d" ∷ "e" ∷ "f"
    ∷ []

pub nth : List String → ℕ → String
nth [] n = ""
nth (d ∷ ds) zero = d
nth (d ∷ ds) (suc n) = nth ds n

-- hex.EncodeToString
unfoldable pub hex : List ℕ → String
unfolding nth hex_digits
hex [] = ""
hex (b ∷ bs) = concat (nth hex_digits (b / 16)) (concat (nth hex_digits (b % 16)) (hex bs))

-- GenerateRequestID; `random` is what rand.Read gives, or none if it fails
unfoldable pub generate_request_id : Option (List ℕ) → String
unfolding hex
generate_request_id none = "unavailable"
generate_request_id (some bytes) = hex bytes

-- the value of the header on the response
unfoldable pub chosen_id : Option (List ℕ) → Incoming → String
chosen_id random r =
    let id = sanitize_request_id (r.header request_id_header) in
    if id == "" then generate_request_id random else id

-- requestID
unfoldable pub request_id : Option (List ℕ) → Middleware
unfolding chosen_id
request_id random next r = (set_header request_id_header (chosen_id random r) ∷ []) ▸ next r

test_ids :
    (sanitize_request_id " a-B_9. " ≡ "a-B_9.")
    × (sanitize_request_id "a b" ≡ "")
    × (generate_request_id (some (0 ∷ 255 ∷ 16 ∷ [])) ≡ "00ff10")
unfolding sanitize_request_id all_valid trim_space generate_request_id
test_ids = (refl, refl, refl)
