-- ===== src/Python.antt =====
-- What the program takes from Python's text functions, whose Unicode tables and float parsing are
-- not part of it: a parameter of the definitions that use them.
use Prim.Native.Char.{code}
use Prim.Native.String.{String}
use healpipe.Prelude.{zero, suc, ℕ, ◌*◌, Bool, Option, List, [], ◌∷◌, leb, ltb, ◌≡◌}
use healpipe.Database.Schema.Json.{ℤ}

-- A score between 0 and 1: the quotient of two numbers, where the source has a float.
pub record Score : Type 0 where
  pub num : ℕ
  pub den : ℕ

-- Comparisons of scores, by cross-multiplication.
abbrev pub score_leb : Score → Score → Bool
score_leb a b = leb (a.num * b.den) (b.num * a.den)

abbrev pub score_ltb : Score → Score → Bool
score_ltb a b = ltb (a.num * b.den) (b.num * a.den)

pub record Text : Type 0 where
  pub strip : String → String
  pub lower : String → String
  pub casefold : String → String
  -- `int(s)` and `float(s)`; none where they raise a ValueError.
  pub parse_int : String → Option ℤ
  pub parse_float : String → Option ℕ
  -- `SequenceMatcher(None, a, b).ratio()`
  pub sequence_ratio : String → String → Score
  pub strip_strip : (s : String) → strip (strip s) ≡ strip s

-- The code points of a text.
abbrev pub codes : String → List ℕ
codes String.[] = []
codes (String.◌∷◌ c s) = code c ∷ codes s

-- `text[:n]`
unfoldable pub prefix : ℕ → String → String
prefix n String.[] = String.[]
prefix zero (String.◌∷◌ c s) = String.[]
prefix (suc n) (String.◌∷◌ c s) = String.◌∷◌ c (prefix n s)
