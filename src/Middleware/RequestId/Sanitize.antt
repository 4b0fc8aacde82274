-- ===== src/Middleware/RequestId/Sanitize.antt =====
-- What SanitizeRequestID lets through.
use Prim.Native.Char.{code}
use Prim.Native.String.{len, [] as empty, ◌∷◌ as char}
use Prim.Native.String.len
use text.Mathlib.TextPositions.{len_utf8-pos}
use fast_platform_modular.Base.{
  ℕ, ◌≤◌, ◌<◌, String, ◌≡◌, ◌≢◌, refl, true, false, ◌||◌, ◌⊎◌, inl, inr, is_space, trim_left,
  trim_right, trim_space, ltb, nat_eq, arith, Bool-cases, ap,
}
use fast_platform_modular.Middleware.RequestId.{valid_id_char, all_valid, sanitize_request_id}

not-is_space : (c : ℕ) → valid_id_char c ≡ true → is_space c ≡ false
unfolding valid_id_char is_space
not-is_space c h = ground arith

trim_left-valid : (s : String) → all_valid s ≡ true → trim_left s ≡ s
unfolding trim_left all_valid
trim_left-valid empty h = refl
trim_left-valid (char c s) h = ground (arith, not-is_space (code c))

trim_right-valid : (s : String) → all_valid s ≡ true → trim_right s ≡ s
unfolding trim_right all_valid
trim_right-valid empty h = refl
trim_right-valid (char c s) h = ground (arith, not-is_space (code c), trim_right-valid s)

-- An ID of 1 to 64 letters, digits, "-", "_" and ".".
pub record IsSafeId (id : String) : Type 0 where
  pub valid : all_valid id ≡ true
  pub filled : id ≢ ""
  pub short : len id ≤ 64

len_pos : (s : String) → s ≢ "" → 0 < len s
len_pos empty h = absurd (h refl)
len_pos (char c s) h = omega (arith, len.cons c s, (len_utf8-pos c).1)

trim_space-valid : (s : String) → all_valid s ≡ true → trim_space s ≡ s
unfolding trim_space
trim_space-valid s h = rw (trim_left-valid s h) (trim_right-valid s h)

-- A header is either rejected, or yields a safe ID.
pub sanitize_request_id-IsSafeId :
    (raw : String) → (sanitize_request_id raw ≡ "") ⊎ IsSafeId (sanitize_request_id raw)
unfolding sanitize_request_id
sanitize_request_id-IsSafeId raw =
    elim (Bool-cases (nat_eq (len (trim_space raw)) 0 || ltb 64 (len (trim_space raw)))) [
      | inl bad ↦ inl (rw bad refl)
      | inr short ↦ elim (Bool-cases (all_valid (trim_space raw))) [
        | inr bad ↦ inl (rw (short, bad) refl)
        | inl good ↦ inr (
            rw (short, good)
              (record {
                valid = good;
                filled = λ e. ground (arith, short, ap len e);
                short = ground arith;
              }))
      ]
    ]

-- A safe ID is kept as it is.
sanitize_request_id-safe : (id : String) → IsSafeId id → sanitize_request_id id ≡ id
unfolding sanitize_request_id
sanitize_request_id-safe id h =
    rw (trim_space-valid id h.valid) (ground (arith, len_pos id, h.valid, h.short))

-- Sanitising twice is sanitising once.
sanitize_request_id_idempotent :
    (raw : String) → sanitize_request_id (sanitize_request_id raw) ≡ sanitize_request_id raw
sanitize_request_id_idempotent raw = elim (sanitize_request_id-IsSafeId raw) [
  | inl e ↦ rw e (unfold sanitize_request_id all_valid trim_space in refl)
  | inr safe ↦ sanitize_request_id-safe (sanitize_request_id raw) safe
]
