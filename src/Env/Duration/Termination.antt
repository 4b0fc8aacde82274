-- ===== src/Env/Duration/Termination.antt =====
-- The loop of time.ParseDuration ends: every round takes a character of the text at least.
use Prim.Native.Char.{code}
use Prim.Native.String.{[] as empty, ◌∷◌ as char}
use fast_platform_modular.Base.{
  ℕ, zero, suc, ◌+◌, ◌-◌, ◌*◌, ◌^◌, ◌≤◌, ◌<◌, ◌≡◌, ◌≢◌, refl, ◌%◌, Bool, false, ◌||◌, ◌/◌, not,
  nat_eq, ◌==◌, ltb, Option, none, some, String, arith, Option-cases, Bool-cases, inl, inr,
  if◌then◌else◌, either_way,
}
use mathlib.Core.Path.{subst}
use fast_platform_modular.Env.Duration.Parse.{
  characters, leading_int, leading_fraction, after_point, take_unit, amount, unit_of, measured,
  with_fraction, starts_part, part, out_of_fuel, parts,
}
use fast_platform_modular.Env.Number.{is_digit, starts_digit}

-- If there is a result, the text it leaves has at most `n` characters.
unfoldable Within : ℕ → Option (ℕ × String) → Type 0
Within n none = Unit
Within n (some (v, r)) = characters r ≤ n

none-Within : (n : ℕ) → Within n none
unfolding Within
none-Within n = tt

some-Within : (n v : ℕ) (r : String) → characters r ≤ n → Within n (some (v, r))
unfolding Within
some-Within n v r h = h

some-size :
    {n v : ℕ} {r : String} {o : Option (ℕ × String)}
    → o ≡ some (v, r)
    → Within n o
    → characters r ≤ n
unfolding Within
some-size {n} e h = subst (Within n) e h

leading_int-Within : (n x : ℕ) (s : String) → characters s ≤ n → Within n (leading_int x s)
unfolding leading_int characters
leading_int-Within n x empty h = some-Within n _ _ h
leading_int-Within n x (char c s) h = either_way (Within n) _ (some-Within n _ _ h) (
    either_way (Within n) _ (none-Within n)
      (leading_int-Within n (x * 10 + (code c - b'0')) s (omega arith)))

leading_fraction-size :
    (x scale : ℕ) (over : Bool) (s : String)
    → characters (leading_fraction x scale over s).2 ≤ characters s
unfolding leading_fraction characters
leading_fraction-size x scale over empty = omega arith
leading_fraction-size x scale over (char c s) = elim (Bool-cases (not (is_digit (code c)))) [
  | inl e ↦ rw e (omega arith)
  | inr e ↦
      let full = over || ltb ((2 ^ 63 - 1) / 10) x || ltb (2 ^ 63) (x * 10 + (code c - b'0')) in
      rw e (
        omega (
          arith,
          leading_fraction-size (if full then x else (x * 10 + (code c - b'0')))
              (if full then scale else (scale * 10)) full s,
        ))
]

after_point-size : (s : String) → characters (after_point s).2 ≤ characters s
unfolding after_point characters
after_point-size empty = omega arith
after_point-size (char c s) = elim (Bool-cases (nat_eq (code c) b'.')) [
  | inl e ↦ rw e (omega (arith, leading_fraction-size 0 1 false s))
  | inr e ↦ rw e (omega arith)
]

take_unit-size :
    (s : String) → characters (take_unit s).0 + characters (take_unit s).1 ≡ characters s
unfolding take_unit characters
take_unit-size empty = refl
take_unit-size (char c s) = elim (Bool-cases (nat_eq (code c) b'.' || is_digit (code c))) [
  | inl e ↦ rw e (omega arith)
  | inr e ↦ rw e (omega (arith, take_unit-size s))
]

module _ (scaled : ℕ → ℕ → ℕ → ℕ) where
  measured-Within :
      (n v f scale : ℕ) (p : String × String)
      → characters p.0 + characters p.1 ≤ suc n
      → Within n (measured scaled v f scale p)
  unfolding measured characters
  measured-Within n v f scale (empty, rest) h = none-Within n
  measured-Within n v f scale (char c u, rest) h = elim (Option-cases (unit_of (char c u))) [
    | inl e ↦ rw e (either_way (Within n) _ (none-Within n) (none-Within n))
    | inr (unit, e) ↦ elim (Option-cases (amount scaled v f scale unit)) [
      | inl k ↦ rw (e, k) (either_way (Within n) _ (none-Within n) (none-Within n))
      | inr (w, k) ↦
          let left : characters rest ≤ n = omega (arith, h) in
          rw (e, k) (either_way (Within n) _ (none-Within n) (some-Within n w rest left))
    ]
  ]

  with_fraction-Within :
      (n : ℕ) (pre : Bool) (v : ℕ) (s : String)
      → characters s ≤ suc n
      → Within n (with_fraction scaled pre v (after_point s))
  unfolding with_fraction
  with_fraction-Within n pre v s h =
      let r = (after_point s).2 in
      either_way (Within n) _ (none-Within n) (
        measured-Within n v (after_point s).0 (after_point s).1 (take_unit r)
          (omega (arith, take_unit-size r, after_point-size s, h)))

  part-Within : (n : ℕ) (s : String) → characters s ≤ suc n → Within n (part scaled s)
  unfolding part
  part-Within n s h = elim (Option-cases (leading_int 0 s)) [
    | inl e ↦ rw e (either_way (Within n) _ (none-Within n) (none-Within n))
    | inr ((v, r), e) ↦
        let k = some-size e (leading_int-Within (suc n) 0 s h) in
        rw e
          (either_way (Within n) _ (none-Within n) (with_fraction-Within n (starts_digit s) v r k))
  ]

  part-size :
      (v : ℕ) (s r : String) → part scaled s ≡ some (v, r) → suc (characters r) ≤ characters s
  unfolding part starts_part characters
  part-size v empty r e = ground arith
  part-size v (char c s) r e =
      omega (arith, some-size e (part-Within (characters s) (char c s) (omega arith)))

  -- One more round, if the rounds after it do not depend on the fuel.
  one_round :
      (f g d : ℕ) (s : String)
      → ((d' : ℕ) (r : String)
          → characters r < characters s
          → (parts scaled f d' r ≡ parts scaled g d' r) × (parts scaled f d' r ≢ out_of_fuel))
      → (parts scaled (suc f) d s ≡ parts scaled (suc g) d s)
        × (parts scaled (suc f) d s ≢ out_of_fuel)
  unfolding parts
  one_round f g d s ih = elim (Bool-cases (s == "")) [
    | inl e ↦ rw e (refl, λ k. cc)
    | inr e ↦ elim (Option-cases (part scaled s)) [
      | inl k ↦ rw (e, k) (refl, λ q. cc)
      | inr ((v, r), k) ↦
          let later = ih ((d + v) % 2 ^ 64) r (omega (arith, part-size v s r k)) in
          elim (Bool-cases (ltb (2 ^ 63) ((d + v) % 2 ^ 64))) [
            | inl o ↦ rw (e, k, o) (refl, λ q. cc)
            | inr o ↦ rw (e, k, o) later
          ]
    ]
  ]

  -- If the loop has more fuel than the text has characters, its result does not depend on the fuel,
  -- and it does not run out of it.
  pub parts-Terminates :
      (f g d : ℕ) (s : String)
      → characters s < f
      → characters s < g
      → (parts scaled f d s ≡ parts scaled g d s) × (parts scaled f d s ≢ out_of_fuel)
  parts-Terminates zero g d s hf hg = absurd (omega (arith, hf))
  parts-Terminates (suc f) zero d s hf hg = absurd (omega (arith, hg))
  parts-Terminates (suc f) (suc g) d s hf hg =
      one_round f g d s
        (λ d' r h. parts-Terminates f g d' r (omega (arith, h, hf)) (omega (arith, h, hg)))
