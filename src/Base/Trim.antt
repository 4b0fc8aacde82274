-- ===== src/Base/Trim.antt =====
-- Trimming twice is trimming once.
use Prim.Native.Char.{Char, code}
use Prim.Native.String.{String, [] as empty, ◌∷◌ as char}
use mathlib.Core.Path.{◌≡◌, refl, ap, ◌∙◌}
use mathlib.Core.Bool.{false, ◌&&◌}
use mathlib.Core.Logic.{inl, inr}
use text.Mathlib.Text.{◌==◌}
use fast_platform_modular.Base.Tests.{Bool-cases}
use fast_platform_modular.Base.Text.{is_space, trim_left, trim_right, trim_space}

trim_left-stops :
    (c : Char) (s : String) → is_space (code c) ≡ false → trim_left (char c s) ≡ char c s
unfolding trim_left
trim_left-stops c s h = rw h refl

-- A text without white space in front keeps that when white space behind is dropped.
trim_left-trim_right :
    (s : String) → trim_left (trim_right (trim_left s)) ≡ trim_right (trim_left s)
unfolding trim_left trim_right
trim_left-trim_right empty = refl
trim_left-trim_right (char c s) = elim (Bool-cases (is_space (code c))) [
  | inl space ↦ rw space (trim_left-trim_right s)
  | inr other ↦ rw (other, other) (trim_left-stops c (trim_right s) other)
]

kept_lem :
    (c : Char) (s : String)
    → is_space (code c) && trim_right s == "" ≡ false
    → trim_right (trim_right s) ≡ trim_right s
    → trim_right (char c (trim_right s)) ≡ char c (trim_right s)
unfolding trim_right
kept_lem c s kept ih = rw (ih, kept) refl

trim_right_idem : (s : String) → trim_right (trim_right s) ≡ trim_right s
unfolding trim_right
trim_right_idem empty = refl
trim_right_idem (char c s) = elim (Bool-cases (is_space (code c) && trim_right s == "")) [
  | inl nothing ↦ rw nothing refl
  | inr kept ↦ rw kept (kept_lem c s kept (trim_right_idem s))
]

pub trim_space_idem : (s : String) → trim_space (trim_space s) ≡ trim_space s
unfolding trim_space
trim_space_idem s = ap trim_right (trim_left-trim_right s) ∙ trim_right_idem (trim_left s)
