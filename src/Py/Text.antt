-- ===== src/Py/Text.antt =====
-- Texts as the lists of their code points, and the `str` methods that the scripts use.
-- The texts are taken to be ASCII: `strip` and `int` know ASCII's white space and digits.
pub mod Laws
use desan.Prelude.{
  ℕ, ◌≡◌, refl, Bool, true, false, ◌&&◌, ◌||◌, Option, none, some, List, [], ◌∷◌, String, code, leb,
  ◌==◌, nat_eq, if◌then◌else◌,
}
use desan.Py.Result.{Result, ok, err, PyError}

abbrev pub Str : Type 0
Str = List ℕ

abbrev pub codes : String → Str
codes String.[] = []
codes (String.◌∷◌ c s) = code c ∷ codes s

-- `s.startswith(prefix)`
unfoldable pub starts_with : Str → Str → Bool
starts_with s [] = true
starts_with [] (p ∷ ps) = false
starts_with (c ∷ s) (p ∷ ps) = c == p && starts_with s ps

-- `s.startswith(prefixes)` for a tuple
unfoldable pub starts_with_any : Str → List Str → Bool
unfolding starts_with
starts_with_any s [] = false
starts_with_any s (p ∷ ps) = starts_with s p || starts_with_any s ps

-- Tab to carriage return, the four separators, and the space.
abbrev pub is_space : ℕ → Bool
is_space c = (leb 9 c && leb c 13) || (leb 28 c && leb c 32)

abbrev pub is_digit : ℕ → Bool
is_digit c = leb 48 c && leb c 57

unfoldable pub lstrip : Str → Str
lstrip [] = []
lstrip (c ∷ s) = if is_space c then lstrip s else c ∷ s

unfoldable pub rstrip : Str → Str
rstrip [] = []
rstrip (c ∷ s) = elim (rstrip s) [ [] ↦ if is_space c then [] else c ∷ [] | d ∷ t ↦ c ∷ d ∷ t ]

-- `s.strip()`
unfoldable pub strip : Str → Str
unfolding lstrip rstrip
strip s = lstrip (rstrip s)

-- `s.split(sep, 1)[1]`: what stands behind the first separator, if there is one.
unfoldable pub after_first : ℕ → Str → Option Str
after_first sep [] = none
after_first sep (c ∷ s) = if c == sep then some s else after_first sep s

-- What stands behind the last separator, if there is one.
unfoldable pub after_last : ℕ → Str → Option Str
after_last sep [] = none
after_last sep (c ∷ s) = elim (after_last sep s) [
  | none ↦ if c == sep then some s else none
  | some t ↦ some t
]

-- An index that a list may not have: `IndexError`.
abbrev pub index_or_raise {ℓ} : {A : Type ℓ} → Option A → Result A
index_or_raise none = err PyError.index_error
index_or_raise (some a) = ok a

-- `s.rsplit(" ", 1)[1]`
unfoldable pub last_word : Str → Result Str
unfolding after_last
last_word s = index_or_raise (after_last 32 s)

-- `s or t`, and the truth of a text that may be `None`
abbrev pub or_text : Str → Str → Str
or_text [] t = t
or_text (c ∷ s) t = c ∷ s

abbrev pub truthy : Option Str → Bool
truthy none = false
truthy (some []) = false
truthy (some (c ∷ s)) = true

-- `s.split()`: the maximal runs without white space.
abbrev push_word : Str → List Str → List Str
push_word [] ws = ws
push_word (c ∷ w) ws = (c ∷ w) ∷ ws

-- The word that the text begins with, and the words behind it.
split_from : Str → Str × List Str
split_from [] = ([], [])
split_from (c ∷ s) =
    let (w, ws) = split_from s in if is_space c then ([], push_word w ws) else (c ∷ w, ws)

unfoldable pub split : Str → List Str
unfolding split_from
split s = let (w, ws) = split_from s in push_word w ws

strip_test : strip (codes "  Count: 12 \n") ≡ codes "Count: 12"
unfolding strip
strip_test = refl

last_word_test : last_word (codes "Total Checks: 12") ≡ ok (codes "12")
unfolding last_word
last_word_test = refl

split_test : split (codes " a  bc d ") ≡ codes "a" ∷ codes "bc" ∷ codes "d" ∷ []
unfolding split
split_test = refl
