-- ===== src/Py/Text/Laws.antt =====
-- `strip` and `rsplit` on words, which are texts without white space.
use desan.Prelude.{
  some, ◌≢◌, ◌∙◌, ap, inl, inr, List-cases, ℕ, ◌≡◌, refl, true, false, none, [], ◌∷◌, ◌++◌, arith,
  All, nat_eq,
}
use desan.Py.Text.{Str, is_space, lstrip, rstrip, strip, after_last}

abbrev pub IsWord : Str → Type 0
IsWord = All (λ c. is_space c ≡ false)

rstrip_word : (s : Str) → IsWord s → rstrip s ≡ s
unfolding rstrip
rstrip_word [] h = refl
rstrip_word (c ∷ []) (h, hs) = rw h
rstrip_word (c ∷ d ∷ s) (h, hs) = rw (rstrip_word (d ∷ s) hs)

pub lstrip-cons : (c : ℕ) (s : Str) → is_space c ≡ false → lstrip (c ∷ s) ≡ c ∷ s
unfolding lstrip
lstrip-cons c s h = rw h

pub strip_word : (s : Str) → IsWord s → strip s ≡ s
unfolding strip
strip_word [] h = refl
strip_word (c ∷ s) (h, hs) = rw (rstrip_word (c ∷ s) (h, hs)) (lstrip-cons c s h)

-- A word that is not empty keeps what stands before it.
pub rstrip-append_word :
    (s : Str) (c : ℕ) (w : Str) → IsWord (c ∷ w) → rstrip (s ++ (c ∷ w)) ≡ s ++ (c ∷ w)
unfolding rstrip
rstrip-append_word [] c w h = rstrip_word (c ∷ w) h
rstrip-append_word (b ∷ []) c w h = rw (rstrip_word (c ∷ w) h)
rstrip-append_word (b ∷ d ∷ s) c w h = rw (rstrip-append_word (d ∷ s) c w h)

pub rstrip-append_space : (s : Str) (c : ℕ) → is_space c ≡ true → rstrip (s ++ (c ∷ [])) ≡ rstrip s
unfolding rstrip
rstrip-append_space [] c h = rw h
rstrip-append_space (b ∷ s) c h = rw (rstrip-append_space s c h)

pub after_last_word : (s : Str) → IsWord s → after_last 32 s ≡ none
unfolding after_last
after_last_word [] h = refl
after_last_word (c ∷ s) (h, hs) = rw (after_last_word s hs) (ground arith)

-- Behind a first character that is no white space, only the end is stripped.
pub strip-cons : (c : ℕ) (s : Str) → is_space c ≡ false → strip (c ∷ s) ≡ c ∷ rstrip s
unfolding strip rstrip
strip-cons c s h = elim (List-cases (rstrip s)) [
  | inl e ↦ rw (e, h) (lstrip-cons c [] h)
  | inr (d, t, e) ↦ rw e (lstrip-cons c (d ∷ t) h)
]

-- A printed line that ends in a word loses its line end only.
pub strip_line :
    (c : ℕ) (s w : Str)
    → is_space c ≡ false
    → IsWord w
    → w ≢ []
    → strip ((c ∷ (s ++ w)) ++ (10 ∷ [])) ≡ c ∷ (s ++ w)
strip_line c s [] hc hw ne = absurd (ne refl)
strip_line c s (d ∷ w) hc hw ne =
    strip-cons c _ hc
    ∙ ap (λ t. c ∷ t) (rstrip-append_space (s ++ (d ∷ w)) 10 refl ∙ rstrip-append_word s d w hw)

pub after_last-append_word : (s w : Str) → IsWord w → after_last 32 (s ++ (32 ∷ w)) ≡ some w
unfolding after_last
after_last-append_word [] w h = rw (after_last_word w h, after_last)
after_last-append_word (c ∷ s) w h = rw (after_last-append_word s w h, after_last)

pub strip-space_word : (w : Str) → IsWord w → strip (32 ∷ w) ≡ w
unfolding strip lstrip rstrip
strip-space_word [] h = refl
strip-space_word (c ∷ w) (h, hs) = rw (rstrip_word (c ∷ w) (h, hs)) (lstrip-cons c w h)
