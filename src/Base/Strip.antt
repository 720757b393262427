-- ===== src/Base/Strip.antt =====
-- What Python's `str.strip`, `str.endswith` and slices make of a word between spaces.
use Prim.Native.Nat.{ℕ}
use mathlib.Core.Path.{◌≡◌, refl, sym, ap, ◌∙◌}
use mathlib.Core.Bool.{true, false}
use mathlib.Core.List.{[], ◌∷◌, ◌++◌, append-nil, append_assoc}
use native.Mathlib.Omega.{arith}
use log_sump.Base.Lists.{All}
use log_sump.Base.Text.{Text, truthy, is_space, lstrip, rstrip, strip}
use log_sump.Base.Words.{IsWord, split_words, split_words-space}

abbrev pub IsGap : Text → Type 0
IsGap gap = All (λ c. is_space c ≡ true) gap

pub word-All : (name : Text) → IsWord name → All (λ c. is_space c ≡ false) name
word-All [] w = absurd w
word-All (c ∷ name) w = w

pub truthy-word : (name : Text) → IsWord name → truthy name ≡ true
truthy-word [] w = absurd w
truthy-word (c ∷ name) w = refl

lstrip-word : (gap w s : Text) → IsGap gap → IsWord w → lstrip (gap ++ (w ++ s)) ≡ w ++ s
unfolding lstrip
lstrip-word [] [] s h w = absurd w
lstrip-word [] (c ∷ name) s h (w, ws) = ground (arith, w)
lstrip-word (c ∷ gap) name s (h, hs) w = ground (arith, h, lstrip-word gap name s hs w)

rstrip-All : (w : Text) → All (λ c. is_space c ≡ false) w → rstrip w ≡ w
unfolding rstrip
rstrip-All [] h = refl
rstrip-All (c ∷ w) (h, hs) = ground (arith, h, rstrip-All w hs)

truthy-append : (s w : Text) → IsWord w → truthy (s ++ w) ≡ true
truthy-append [] w h = truthy-word w h
truthy-append (c ∷ s) w h = refl

rstrip-word : (s w : Text) → IsWord w → rstrip (s ++ w) ≡ s ++ w
unfolding rstrip
rstrip-word [] w h = rstrip-All w (word-All w h)
rstrip-word (c ∷ s) w h = rw (rstrip-word s w h) (ground (arith, truthy-append s w h))

-- Spaces in front of a word, and of a text that ends with a word, go.
pub strip-word : (gap w : Text) → IsGap gap → IsWord w → strip (gap ++ w) ≡ w
unfolding strip
strip-word gap w h k =
    ap (λ s. rstrip (lstrip (gap ++ s))) (sym (append-nil w))
    ∙ ap rstrip (lstrip-word gap w [] h k ∙ append-nil w)
    ∙ rstrip-All w (word-All w k)

pub strip-words :
    (gap v s w : Text)
    → IsGap gap
    → IsWord v
    → IsWord w
    → strip (gap ++ (v ++ (s ++ w))) ≡ v ++ (s ++ w)
unfolding strip
strip-words gap v s w h k l =
    ap rstrip (lstrip-word gap v (s ++ w) h k)
    ∙ ap rstrip (sym (append_assoc v s w))
    ∙ rstrip-word (v ++ s) w l
    ∙ append_assoc v s w

rstrip-behind :
    (w : Text) (c : ℕ)
    → All (λ c. is_space c ≡ false) w
    → is_space c ≡ true
    → rstrip (w ++ (c ∷ [])) ≡ w
unfolding rstrip
rstrip-behind [] c h k = ground (arith, k)
rstrip-behind (d ∷ w) c (h, hs) k = rw (rstrip-behind w c hs k) (ground (arith, h))

-- A space behind a word goes.
pub strip-behind : (w : Text) (c : ℕ) → IsWord w → is_space c ≡ true → strip (w ++ (c ∷ [])) ≡ w
unfolding strip
strip-behind w c h k =
    ap rstrip (lstrip-word [] w (c ∷ []) tt h) ∙ rstrip-behind w c (word-All w h) k

pub split_words-gap : (gap s : Text) → IsGap gap → split_words (gap ++ s) ≡ split_words s
split_words-gap [] s h = refl
split_words-gap (c ∷ gap) s (h, hs) = split_words-space c (gap ++ s) h ∙ split_words-gap gap s hs
