-- ===== src/Config/Lists.antt =====
-- Which list csvEnv reads.
use Prim.Native.Char.{Char, code}
use Prim.Native.String.{[] as empty, ◌∷◌ as char}
use fast_platform_modular.Base.{
  String, ◌≡◌, ◌≢◌, Bool, false, ◌||◌, List, [], ◌∷◌, arith, concat, trim_space, eq_iff, nat_eq,
}
use fast_platform_modular.Env.{Environ, string}

unfoldable pub has_comma : String → Bool
has_comma empty = false
has_comma (char c s) = nat_eq (code c) b',' || has_comma s

-- A value that a list variable can hold: trimmed, not empty, without a comma.
pub record IsEntry (v : String) : Type 0 where
  pub trimmed : trim_space v ≡ v
  pub some_text : v ≢ ""
  pub whole : has_comma v ≡ false

-- The values with commas between them.
unfoldable pub join : List String → String
join [] = ""
join (v ∷ []) = v
join (v ∷ w ∷ vs) = concat v (concat "," (join (w ∷ vs)))

pub string-unset : (getenv : Environ) (key : String) → string getenv key "" ≡ getenv key
unfolding string
string-unset getenv key = ground (arith, eq_iff (getenv key) "")
