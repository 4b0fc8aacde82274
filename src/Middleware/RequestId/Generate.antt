-- ===== src/Middleware/RequestId/Generate.antt =====
-- What GenerateRequestID makes, and the ID that every response carries.
use Prim.Native.String.{len, [] as empty, ◌∷◌ as char}
use text.Mathlib.TextLemmas.{nil-append, cons-append}
use text.Mathlib.TextPositions.{len-append}
use fast_platform_modular.Base.{
  ℕ, zero, suc, ◌*◌, ◌/◌, ◌%◌, ◌<◌, String, ◌≡◌, refl, true, inl, inr, Option, none, some, List, [],
  ◌∷◌, concat, ◌==◌, eq_iff, arith, Bool-cases, All, length, ap,
}
use fast_platform_modular.Middleware.{Incoming}
use fast_platform_modular.Middleware.RequestId.{
  all_valid, sanitize_request_id, hex_digits, nth, hex, generate_request_id, chosen_id,
  request_id_header,
}
use fast_platform_modular.Middleware.RequestId.Sanitize.{IsSafeId, sanitize_request_id-IsSafeId}

all_valid-concat :
    (s t : String) → all_valid s ≡ true → all_valid t ≡ true → all_valid (concat s t) ≡ true
unfolding all_valid
all_valid-concat empty t h k = rw nil-append k
all_valid-concat (char c s) t h k = rw cons-append (ground (arith, all_valid-concat s t))

-- Every hexadecimal digit is one valid character.
IsDigit : String → Type 0
IsDigit d = (all_valid d ≡ true) × (len d ≡ 1)

nth-IsDigit : (ds : List String) (n : ℕ) → All IsDigit ds → n < length ds → IsDigit (nth ds n)
unfolding nth
nth-IsDigit [] n h lt = absurd (omega arith)
nth-IsDigit (d ∷ ds) zero (h, hs) lt = h
nth-IsDigit (d ∷ ds) (suc n) (h, hs) lt = nth-IsDigit ds n hs (omega arith)

hex_digits-IsDigit : All IsDigit hex_digits
unfolding hex_digits IsDigit all_valid
hex_digits-IsDigit = ground arith

digit : (n : ℕ) → n < 16 → IsDigit (nth hex_digits n)
unfolding hex_digits
digit n lt = nth-IsDigit hex_digits n hex_digits-IsDigit lt

abbrev AreBytes : List ℕ → Type 0
AreBytes = All (λ b. b < 256)

hex-valid : (bs : List ℕ) → AreBytes bs → all_valid (hex bs) ≡ true
unfolding hex IsDigit all_valid
hex-valid [] h = refl
hex-valid (b ∷ bs) (h, hs) =
    all_valid-concat (nth hex_digits (b / 16)) _ (digit (b / 16) (omega arith)).0 (
      all_valid-concat (nth hex_digits (b % 16)) (hex bs) (digit (b % 16) (omega arith)).0
        (hex-valid bs hs))

len-hex : (bs : List ℕ) → AreBytes bs → len (hex bs) ≡ 2 * length bs
unfolding hex IsDigit
len-hex [] h = refl
len-hex (b ∷ bs) (h, hs) = omega (
  arith,
  len-append (nth hex_digits (b / 16)) (concat (nth hex_digits (b % 16)) (hex bs)),
  len-append (nth hex_digits (b % 16)) (hex bs),
  (digit (b / 16) (omega arith)).1,
  (digit (b % 16) (omega arith)).1,
  len-hex bs hs,
)

-- What rand.Read gives: sixteen bytes, or an error.
abbrev pub IsRandom : Option (List ℕ) → Type 0
IsRandom none = Unit {0}
IsRandom (some bs) = AreBytes bs × (length bs ≡ 16)

generate_request_id-IsSafeId :
    (random : Option (List ℕ)) → IsRandom random → IsSafeId (generate_request_id random)
unfolding generate_request_id all_valid
generate_request_id-IsSafeId none h = record {
  valid = refl;
  filled = λ e. ground (arith, ap len e);
  short = omega arith;
}
generate_request_id-IsSafeId (some bs) (h, k) = record {
  valid = hex-valid bs h;
  filled = λ e. omega (arith, ap len e, len-hex bs h);
  short = omega (arith, len-hex bs h);
}

pub chosen_id-IsSafeId :
    (random : Option (List ℕ)) (r : Incoming) → IsRandom random → IsSafeId (chosen_id random r)
unfolding chosen_id
chosen_id-IsSafeId random r h =
    let sent = sanitize_request_id (r.header request_id_header) in
    elim (Bool-cases (sent == "")) [
      | inl none_sent ↦ rw none_sent (generate_request_id-IsSafeId random h)
      | inr some_sent ↦
          rw some_sent (elim (sanitize_request_id-IsSafeId (r.header request_id_header)) [
            | inl e ↦ absurd (ground (arith, eq_iff sent ""))
            | inr safe ↦ safe
          ])
    ]
