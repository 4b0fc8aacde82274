-- ===== src/Env/DurationFallback.antt =====
-- What `Duration` of env/env.go returns: a value that parses, the form "h:m:s", or the fallback.
use fast_platform_modular.Base.{
  ℕ, ◌+◌, ◌*◌, ◌^◌, ◌<◌, ◌%◌, String, ◌≡◌, ◌≢◌, refl, sym, ap, ◌∙◌, true, none, some, arith, eq_iff,
  ltb,
}
use fast_platform_modular.Base.Int.{ℤ, pos}
use fast_platform_modular.Env.Duration.Parse.{parse_duration}
use fast_platform_modular.Env.Duration.Text.{duration_text}
use fast_platform_modular.Env.Duration.Clock.{sscanf_clock, to_u64, from_u64, of_clock}
use fast_platform_modular.Env.Duration.Seconds.{parse_duration-duration_text}
use fast_platform_modular.Env.Duration.Times.{
  clock_text, clock_text-ne-empty, parse_duration-clock_text, sscanf_clock-clock_text,
}
use fast_platform_modular.Env.{Environ, string, read_duration, duration}

of_clock-exact :
    (h m s : ℕ)
    → h * (3600 * 10 ^ 9) + m * (60 * 10 ^ 9) + s * 10 ^ 9 < 2 ^ 63
    → of_clock (pos h, pos m, pos s) ≡ pos (h * (3600 * 10 ^ 9) + m * (60 * 10 ^ 9) + s * 10 ^ 9)
unfolding of_clock to_u64 from_u64
of_clock-exact h m s bound =
    let eh : h % 2 ^ 64 ≡ h = omega (arith, bound) in
    let em : m % 2 ^ 64 ≡ m = omega (arith, bound) in
    let es : s % 2 ^ 64 ≡ s = omega (arith, bound) in
    let sum = h * (3600 * 10 ^ 9) + m * (60 * 10 ^ 9) + s * 10 ^ 9 in
    let whole : sum % 2 ^ 64 ≡ sum = omega (arith, bound) in
    let low : ltb sum (2 ^ 63) ≡ true = ground (arith, bound) in rw (eh, em, es, whole, low) refl

module _ (getenv : Environ) (key : String) where
  is_set : (fallback : String) → getenv key ≢ "" → string getenv key fallback ≡ getenv key
  unfolding string
  is_set fallback set = ground (arith, eq_iff (getenv key) "", set)

  pub not_set : (fallback : String) → getenv key ≡ "" → string getenv key fallback ≡ fallback
  unfolding string
  not_set fallback e = ground (arith, eq_iff (getenv key) "", e)

module _ (scaled : ℕ → ℕ → ℕ → ℕ) (getenv : Environ) (key : String) where
  -- Let the fallback be a number of whole seconds below 2^63 nanoseconds. A variable that is not set,
  -- or that neither ParseDuration nor the form "h:m:s" reads, gives the fallback; what ParseDuration
  -- reads is the result, and the form "h:m:s" counts where ParseDuration refuses the text.
  pub duration_lem :
      (n : ℕ)
      → n * 10 ^ 9 < 2 ^ 63
      → (getenv key ≡ "" → duration scaled getenv key (pos (n * 10 ^ 9)) ≡ pos (n * 10 ^ 9))
        × (getenv key ≢ ""
            → parse_duration scaled (getenv key) ≡ none
            → sscanf_clock (getenv key) ≡ none
            → duration scaled getenv key (pos (n * 10 ^ 9)) ≡ pos (n * 10 ^ 9))
        × ((d : ℤ)
            → getenv key ≢ ""
            → parse_duration scaled (getenv key) ≡ some d
            → duration scaled getenv key (pos (n * 10 ^ 9)) ≡ d)
        × ((clock : ℤ × ℤ × ℤ)
            → getenv key ≢ ""
            → parse_duration scaled (getenv key) ≡ none
            → sscanf_clock (getenv key) ≡ some clock
            → duration scaled getenv key (pos (n * 10 ^ 9)) ≡ of_clock clock)
  unfolding duration read_duration
  duration_lem n h =
      let fallback = pos (n * 10 ^ 9) in
      let t = duration_text fallback in
      let read = read_duration scaled fallback in
      (
        λ e.
            ap read (not_set getenv key t e)
            ∙ rw (read_duration, (parse_duration-duration_text scaled n h).0) refl,
        λ set p c. ap read (is_set getenv key t set) ∙ rw (read_duration, p, c) refl,
        λ d set p. ap read (is_set getenv key t set) ∙ rw (read_duration, p) refl,
        λ clock set p c. ap read (is_set getenv key t set) ∙ rw (read_duration, p, c) refl,
      )

  -- A variable with the text "h:m:s", in three decimal numbers without leading zeros, gives that many hours, minutes and
  -- seconds whatever the fallback, if they are below 2^63 nanoseconds.
  pub duration-clock_text :
      (h m s : ℕ) (fallback : ℤ)
      → getenv key ≡ clock_text h m s
      → h * (3600 * 10 ^ 9) + m * (60 * 10 ^ 9) + s * 10 ^ 9 < 2 ^ 63
      → duration scaled getenv key fallback
        ≡ pos (h * (3600 * 10 ^ 9) + m * (60 * 10 ^ 9) + s * 10 ^ 9)
  unfolding duration read_duration
  duration-clock_text h m s fallback e bound =
      let set : getenv key ≢ "" = λ q. clock_text-ne-empty h m s (sym e ∙ q) in
      ap (read_duration scaled fallback) (is_set getenv key (duration_text fallback) set ∙ e)
      ∙ rw
          (
            read_duration,
            parse_duration-clock_text scaled h m s (omega (arith, bound)),
            sscanf_clock-clock_text h m s (omega (arith, bound)) (omega (arith, bound))
                (omega (arith, bound)),
          )
          (of_clock-exact h m s bound)
