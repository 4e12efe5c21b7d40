-- ===== src/Prelude/Text.antt =====
-- Python's `str.lower` and `in`, on the characters' numbers. Only the letters A to Z are lowered.
use Prim.Native.Char.{code}
use Prim.Native.Nat.{ℕ, ◌+◌}
use Prim.Native.String.{String}
use mathlib.Core.Bool.{Bool, true, false, ◌&&◌}
use mathlib.Core.Path.{◌≡◌, refl}
use mathlib.Core.List.{List, [], ◌∷◌}
use tv_zerodha_bot.Prelude.Tests.{leb, ◌==◌, nat_eq, if◌then◌else◌}

lowered : ℕ → ℕ
lowered c = if leb b'A' c && leb c b'Z' then c + 32 else c

-- `s.lower()`
unfoldable pub lower : String → List ℕ
unfolding lowered
lower String.[] = []
lower (String.◌∷◌ c s) = lowered (code c) ∷ lower s

-- `s` itself, and a comparison of two texts
unfoldable pub codes : String → List ℕ
codes String.[] = []
codes (String.◌∷◌ c s) = code c ∷ codes s

begins : (part whole : List ℕ) → Bool
begins [] whole = true
begins (c ∷ part) [] = false
begins (c ∷ part) (d ∷ whole) = let rest = begins part whole in if c == d then rest else false

-- `part in whole`
unfoldable pub occurs : (part whole : List ℕ) → Bool
unfolding begins
occurs [] [] = true
occurs (c ∷ part) [] = false
occurs part (d ∷ whole) =
    let rest = occurs part whole in if begins part (d ∷ whole) then true else rest

-- `a == b`
unfoldable pub alike : (a b : List ℕ) → Bool
unfolding begins
alike a b = begins a b && begins b a

occurs_run : occurs (lower "invalid trigger") (lower "GTT: Invalid Trigger id") ≡ true
unfolding occurs lower
occurs_run = refl
