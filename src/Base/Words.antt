-- ===== src/Base/Words.antt =====
-- Python's `str.split` at white space, and `str.partition`.
use Prim.Native.Nat.{ℕ}
use mathlib.Core.Path.{◌≡◌, refl, ap, ◌∙◌}
use mathlib.Core.Bool.{Bool, true, false, not}
use mathlib.Core.Option.{Option, none, some}
use mathlib.Core.List.{List, [], ◌∷◌, ◌++◌}
use native.Mathlib.Omega.{arith}
use log_sump.Base.Tests.{if◌then◌else◌, nat_eq}
use log_sump.Base.Lists.{All}
use log_sump.Base.Text.{Text, is_space}

abbrev begins_word : Text → Bool
begins_word [] = false
begins_word (c ∷ s) = not (is_space c)

abbrev to_first_word : ℕ → List Text → List Text
to_first_word c [] = (c ∷ []) ∷ []
to_first_word c (w ∷ ws) = (c ∷ w) ∷ ws

-- s.split()
unfoldable pub split_words : Text → List Text
split_words [] = []
split_words (c ∷ s) =
    let rest = split_words s in
    if is_space c then rest else if begins_word s then to_first_word c rest else (c ∷ []) ∷ rest

-- s.partition(sep), for a separator of one character; `none` without one
unfoldable pub partition_at : ℕ → Text → Option (Text × Text)
partition_at sep [] = none
partition_at sep (c ∷ s) =
    let rest = partition_at sep s in
    if nat_eq c sep
    then some ([], s)
    else elim rest [ none ↦ none | some (before, after) ↦ some (c ∷ before, after) ]

-- The same, where what is missing is empty.
abbrev pub partition : ℕ → Text → Text × Text
partition sep s = elim (partition_at sep s) [ none ↦ (s, []) | some p ↦ p ]

pub partition_at-append :
    (sep : ℕ) (before after : Text)
    → All (λ c. nat_eq c sep ≡ false) before
    → partition_at sep (before ++ (sep ∷ after)) ≡ some (before, after)
unfolding partition_at
partition_at-append sep [] after h = ground arith
partition_at-append sep (c ∷ before) after (h, hs) =
    ground (arith, h, partition_at-append sep before after hs)

-- A word: it is not empty, and holds no space.
abbrev pub IsWord : Text → Type 0
IsWord [] = ⊥
IsWord (c ∷ w) = (is_space c ≡ false) × All (λ d. is_space d ≡ false) w

pub split_words-space : (c : ℕ) (s : Text) → is_space c ≡ true → split_words (c ∷ s) ≡ split_words s
unfolding split_words
split_words-space c s h = ground (arith, h)

pub split_words-word :
    (w : Text) (c : ℕ) (s : Text)
    → IsWord w
    → is_space c ≡ true
    → split_words (w ++ (c ∷ s)) ≡ w ∷ split_words s
unfolding split_words
split_words-word [] c s h k = absurd h
split_words-word (d ∷ []) c s (h, hs) k = ground (arith, h, k)
split_words-word (d ∷ e ∷ w) c s (h, hs) k =
    ground (arith, h, hs, split_words-word (e ∷ w) c s hs k)

pub split_words_one : (w : Text) → IsWord w → split_words w ≡ w ∷ []
unfolding split_words
split_words_one [] h = absurd h
split_words_one (d ∷ []) (h, hs) = ground (arith, h)
split_words_one (d ∷ e ∷ w) (h, hs) = ground (arith, h, hs, split_words_one (e ∷ w) hs)

-- Words with one space between them.
unfoldable pub spaced : List Text → Text
spaced [] = []
spaced (w ∷ []) = w
spaced (w ∷ x ∷ ws) = w ++ (b' ' ∷ spaced (x ∷ ws))

pub split_words-spaced : (ws : List Text) → All IsWord ws → split_words (spaced ws) ≡ ws
unfolding spaced
split_words-spaced [] h = unfold split_words in refl
split_words-spaced (w ∷ []) (h, hs) = split_words_one w h
split_words-spaced (w ∷ x ∷ ws) (h, hs) =
    split_words-word w b' ' (spaced (x ∷ ws)) h refl
    ∙ ap (λ l. w ∷ l) (split_words-spaced (x ∷ ws) hs)
