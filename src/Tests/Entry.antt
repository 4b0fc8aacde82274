-- ===== src/Tests/Entry.antt =====
-- A cache of one entry that keeps lifetimes.
use fast_platform_modular.Base.{
  ℕ, ◌+◌, ◌*◌, ◌^◌, ◌≤◌, String, ◌≡◌, refl, Bool, ◌&&◌, Option, none, some, ◌⊎◌, inl, inr, ◌==◌,
  eq_iff, leb, arith, if◌then◌else◌, Bool-cases,
}
use fast_platform_modular.Errors.{Error, Result, ok, err}
use fast_platform_modular.Orders.Models.{OrderView}
use fast_platform_modular.Orders.Service.{ViewCache}
use fast_platform_modular.App.Fresh.{IsTimed}
use fast_platform_modular.App.Statuses.Reading.{IsErrorPassing}

-- The key, the view, and when it was loaded.
abbrev pub Entry : Type 0
Entry = Option (String × OrderView × ℕ)

unfoldable pub keep : ℕ → String → Result OrderView → Entry × Result OrderView
keep now key (ok v) = (some (key, v, now), ok v)
keep now key (err e) = (none, err e)

abbrev is_live : ℕ → ℕ → ℕ → Bool
is_live now since ttl = leb (now * 10 ^ 6) (since * 10 ^ 6 + ttl)

unfoldable pub one_entry : ℕ → String → Result OrderView → ℕ → Entry → Entry × Result OrderView
unfolding keep
one_entry now key loaded ttl none = keep now key loaded
one_entry now key loaded ttl (some (k, v, since)) =
    if k == key && is_live now since ttl then (some (k, v, since), ok v) else keep now key loaded

abbrev pub cache : ViewCache Entry
cache = record { get_or_set = one_entry }

-- The entry that the cache holds.
abbrev pub HoldsSince : String → OrderView → ℕ → Entry → Type 0
HoldsSince key v t c = c ≡ some (key, v, t)

abbrev pub Holds : String → OrderView → Entry → Type 0
Holds key v c = (t : ℕ) × HoldsSince key v t c

keep-ok :
    (now : ℕ) (key : String) (loaded : Result OrderView) (v : OrderView)
    → (keep now key loaded).1 ≡ ok v
    → loaded ≡ ok v
unfolding keep
keep-ok now key (ok w) v e = e
keep-ok now key (err x) v e = ground arith

one_entry-answers :
    (now : ℕ) (key : String) (loaded : Result OrderView) (ttl : ℕ) (c : Entry) (v : OrderView)
    → (one_entry now key loaded ttl c).1 ≡ ok v
    → ((t : ℕ) × HoldsSince key v t c × (now * 10 ^ 6 ≤ t * 10 ^ 6 + ttl)) ⊎ (loaded ≡ ok v)
unfolding one_entry keep
one_entry-answers now key (ok w) ttl none v e = inr e
one_entry-answers now key (err x) ttl none v e = ground arith
one_entry-answers now key loaded ttl (some (k, u, t)) v e =
    elim (Bool-cases (k == key && is_live now t ttl)) [
      | inl live ↦ inl (t, ground (arith, live, e, eq_iff k key), ground (arith, live))
      | inr dead ↦ inr (keep-ok now key loaded v (rw dead at e))
    ]

one_entry-keeps :
    (now : ℕ) (key k : String) (loaded : Result OrderView) (ttl : ℕ) (c : Entry) (v : OrderView)
    (t : ℕ)
    → HoldsSince k v t (one_entry now key loaded ttl c).0
    → HoldsSince k v t c ⊎ ((k ≡ key) × (loaded ≡ ok v) × (t ≡ now))
unfolding one_entry keep
one_entry-keeps now key k (ok w) ttl none v t e = inr (ground arith, ground arith, ground arith)
one_entry-keeps now key k (err x) ttl none v t e = ground arith
one_entry-keeps now key k (ok w) ttl (some (j, u, s)) v t e =
    elim (Bool-cases (j == key && is_live now s ttl)) [
      | inl live ↦ inl (rw live at e)
      | inr dead ↦ let q = rw dead at e in inr (ground arith, ground arith, ground arith)
    ]
one_entry-keeps now key k (err x) ttl (some (j, u, s)) v t e =
    elim (Bool-cases (j == key && is_live now s ttl)) [
      | inl live ↦ inl (rw live at e)
      | inr dead ↦ let q = rw dead at e in ground arith
    ]

pub cache-IsTimed : IsTimed cache HoldsSince
cache-IsTimed = record { answers = one_entry-answers; keeps = one_entry-keeps }

keep-error :
    (now : ℕ) (key : String) (loaded : Result OrderView) (e : Error)
    → (keep now key loaded).1 ≡ err e
    → loaded ≡ err e
unfolding keep
keep-error now key (ok v) e failed = ground arith
keep-error now key (err x) e failed = failed

pub cache-IsErrorPassing : IsErrorPassing cache
unfolding one_entry
cache-IsErrorPassing now key loaded ttl none e failed =
    inr (e, keep-error now key loaded e failed, refl)
cache-IsErrorPassing now key loaded ttl (some (k, v, since)) e failed =
    elim (Bool-cases (k == key && is_live now since ttl)) [
      | inl live ↦ absurd (ground (arith, rw live at failed))
      | inr dead ↦ inr (e, keep-error now key loaded e (rw dead at failed), refl)
    ]
