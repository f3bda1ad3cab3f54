-- ===== src/Base/Text/Laws.antt =====
-- Laws of splitting and joining texts.
use Prim.Native.Char.{Char, code}
use text.Mathlib.TextLemmas.{nil-append, cons-append}
use fernbank.Base.{ℕ, ◌≡◌, ◌≢◌, refl, [], ◌∷◌, String, some, arith, Bool, true, not, ◌&&◌, eqb}
use fernbank.Base.Text.{◌+++◌, split, strip_prefix}

-- No character of the text has the code.
abbrev pub Lacks : ℕ → String → Type 0
Lacks sep String.[] = Unit
Lacks sep (String.◌∷◌ c s) = (code c ≢ sep) × Lacks sep s

pub strip_prefix-append : (p s : String) → strip_prefix p (p +++ s) ≡ some s
unfolding strip_prefix
strip_prefix-append String.[] s = rw nil-append
strip_prefix-append (String.◌∷◌ c p) s =
    rw (cons-append c p s) (ground (arith, strip_prefix-append p s))

-- What stands before a separator is the first part.
pub split-append :
    (sep : ℕ) (c : Char) (r s : String)
    → code c ≡ sep
    → Lacks sep r
    → split sep (r +++ String.◌∷◌ c s) ≡ r ∷ split sep s
unfolding split
split-append sep c String.[] s e h = rw nil-append (ground arith)
split-append sep c (String.◌∷◌ d r) s e h =
    rw (cons-append d r (String.◌∷◌ c s), split-append sep c r s e h.1) (ground arith)

-- A text without a separator is its only part.
pub split-Lacks : (sep : ℕ) (s : String) → Lacks sep s → split sep s ≡ s ∷ []
unfolding split
split-Lacks sep String.[] h = refl
split-Lacks sep (String.◌∷◌ c s) h = rw (split-Lacks sep s h.1) (ground arith)

-- `Lacks`, as a test.
abbrev pub lacks : ℕ → String → Bool
lacks sep String.[] = true
lacks sep (String.◌∷◌ c s) = not (eqb (code c) sep) && lacks sep s

pub lacks→Lacks : (sep : ℕ) (s : String) → lacks sep s ≡ true → Lacks sep s
lacks→Lacks sep String.[] h = tt
lacks→Lacks sep (String.◌∷◌ c s) h = (ground arith, lacks→Lacks sep s (ground arith))
