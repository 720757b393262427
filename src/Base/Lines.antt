-- ===== src/Base/Lines.antt =====
-- Python's `str.splitlines` and "\n".join.
use Prim.Native.Nat.{ℕ}
use mathlib.Core.Path.{◌≡◌, refl, ap, ◌∙◌}
use mathlib.Core.Bool.{Bool, false, ◌&&◌, ◌||◌}
use mathlib.Core.List.{List, [], ◌∷◌, ◌++◌}
use native.Mathlib.Omega.{arith}
use log_sump.Base.Tests.{if◌then◌else◌, leb, nat_eq}
use log_sump.Base.Lists.{All}
use log_sump.Base.Text.{Text}

-- The characters that end a line.
abbrev pub is_break : ℕ → Bool
is_break c =
    leb 10 c && leb c 13 || leb 28 c && leb c 30 || nat_eq c 133 || nat_eq c 8232 || nat_eq c 8233

abbrev begins_newline : Text → Bool
begins_newline [] = false
begins_newline (c ∷ s) = nat_eq c 10

abbrev to_first_line : ℕ → List Text → List Text
to_first_line c [] = (c ∷ []) ∷ []
to_first_line c (l ∷ ls) = (c ∷ l) ∷ ls

-- s.splitlines(), where "\r\n" is one end
unfoldable pub splitlines : Text → List Text
splitlines [] = []
splitlines (c ∷ s) =
    let rest = splitlines s in
    if is_break c
    then (if nat_eq c 13 && begins_newline s then rest else [] ∷ rest)
    else to_first_line c rest

-- "\n".join(lines)
unfoldable pub join_lines : List Text → Text
join_lines [] = []
join_lines (l ∷ []) = l
join_lines (l ∷ m ∷ ls) = l ++ (10 ∷ join_lines (m ∷ ls))

-- Lines as a command prints them, each with its newline.
unfoldable pub print_lines : List Text → Text
print_lines [] = []
print_lines (l ∷ ls) = l ++ (10 ∷ print_lines ls)

-- A line holds no character that ends one.
abbrev pub IsLine : Text → Type 0
IsLine l = All (λ c. is_break c ≡ false) l

splitlines-line : (l s : Text) → IsLine l → splitlines (l ++ (10 ∷ s)) ≡ l ∷ splitlines s
unfolding splitlines
splitlines-line [] s h = refl
splitlines-line (c ∷ l) s (h, hs) = ground (arith, h, splitlines-line l s hs)

pub splitlines-print_lines : (ls : List Text) → All IsLine ls → splitlines (print_lines ls) ≡ ls
unfolding print_lines
splitlines-print_lines [] h = unfold splitlines in refl
splitlines-print_lines (l ∷ ls) (h, hs) =
    splitlines-line l (print_lines ls) h ∙ ap (λ x. l ∷ x) (splitlines-print_lines ls hs)

splitlines-one : (l : Text) (c : ℕ) → IsLine (c ∷ l) → splitlines (c ∷ l) ≡ (c ∷ l) ∷ []
unfolding splitlines
splitlines-one [] c (h, hs) = ground (arith, h)
splitlines-one (d ∷ l) c (h, hs) = ground (arith, h, splitlines-one l d hs)

-- A line that is not empty.
abbrev pub IsFullLine : Text → Type 0
IsFullLine [] = ⊥
IsFullLine (c ∷ l) = IsLine (c ∷ l)

-- What is joined splits again.
pub splitlines-join_lines : (ls : List Text) → All IsFullLine ls → splitlines (join_lines ls) ≡ ls
unfolding join_lines
splitlines-join_lines [] h = unfold splitlines in refl
splitlines-join_lines ([] ∷ ls) h = absurd h.0
splitlines-join_lines ((c ∷ l) ∷ []) (h, hs) = splitlines-one l c h
splitlines-join_lines ((c ∷ l) ∷ m ∷ ls) (h, hs) =
    splitlines-line (c ∷ l) (join_lines (m ∷ ls)) h
    ∙ ap (λ x. (c ∷ l) ∷ x) (splitlines-join_lines (m ∷ ls) hs)
