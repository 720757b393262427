-- ===== src/Common/Redis/StreamId.antt =====
-- Stream IDs, `<ms>-<seq>`: how they are ordered, how they are written, and the bounds that
-- XRANGE takes.
use log_sump.Base.{
  ℕ, ◌<◌, ◌≡◌, refl, ◌∙◌, ap, Bool, true, ◌&&◌, ◌||◌, [], ◌∷◌, ◌++◌, if◌then◌else◌, ltb, leb,
  nat_eq, All, arith, append-nil, All-append,
}
use log_sump.Base.Text.{Text, codes, truthy}
use log_sump.Base.Numerals.{
  show_nat, read_nat, read-show_nat, show_nat-ascii, StartsWithDigit, show_nat-StartsWithDigit,
}

pub record StreamId : Type 0 where
  pub ms : ℕ
  pub seq : ℕ

abbrev pub id_lt : StreamId → StreamId → Bool
id_lt a b = ltb a.ms b.ms || (nat_eq a.ms b.ms && ltb a.seq b.seq)

abbrev pub id_le : StreamId → StreamId → Bool
id_le a b = ltb a.ms b.ms || (nat_eq a.ms b.ms && leb a.seq b.seq)

unfoldable pub render : StreamId → Text
render i = show_nat i.ms ++ (codes "-" ++ show_nat i.seq)

pub render-ascii : (i : StreamId) → All (λ c. c < 128) (render i)
unfolding render
render-ascii i =
    All-append _ (show_nat i.ms) _ (show_nat-ascii i.ms) (omega arith, show_nat-ascii i.seq)

truthy_digits : (digits rest : Text) → StartsWithDigit digits → truthy (digits ++ rest) ≡ true
truthy_digits [] rest h = absurd h
truthy_digits (c ∷ s) rest h = refl

pub truthy-render : (i : StreamId) → truthy (render i) ≡ true
unfolding render
truthy-render i = truthy_digits (show_nat i.ms) _ (show_nat-StartsWithDigit i.ms)

-- The two numbers at the front of a text, joined by a dash.
abbrev pub read_seq : ℕ × Text → StreamId
read_seq (ms, []) = record { ms = ms; seq = 0 }
read_seq (ms, c ∷ s) = record { ms = ms; seq = (read_nat 0 s).0 }

abbrev pub read_id : Text → StreamId
read_id s = read_seq (read_nat 0 s)

pub read_id-render : (i : StreamId) → read_id (render i) ≡ i
unfolding render
read_id-render i =
    rw (read-show_nat i.ms (codes "-" ++ show_nat i.seq))
      (rw (← append-nil (show_nat i.seq)) (rw (read-show_nat i.seq [])))

-- A bound of XRANGE: inclusive, or exclusive by a parenthesis in front.
pub data Bound : Type 0 where
  from after : StreamId → Bound

abbrev pub bound_text : Bound → Text
bound_text (from i) = render i
bound_text (after i) = b'(' ∷ render i

abbrev pub above : Bound → StreamId → Bool
above (from i) j = id_le i j
above (after i) j = id_lt i j

abbrev pub read_bound : Text → Bound
read_bound [] = from (read_id [])
read_bound (c ∷ s) = if nat_eq c b'(' then after (read_id s) else from (read_id (c ∷ s))

read_bound_inclusive :
    (digits rest : Text)
    → StartsWithDigit digits
    → read_bound (digits ++ rest) ≡ from (read_id (digits ++ rest))
read_bound_inclusive [] rest h = absurd h
read_bound_inclusive (c ∷ s) rest h = ground arith

-- A bound reads back.
pub read_bound-text : (b : Bound) → read_bound (bound_text b) ≡ b
unfolding render
read_bound-text (from i) =
    read_bound_inclusive (show_nat i.ms) (codes "-" ++ show_nat i.seq)
      (show_nat-StartsWithDigit i.ms)
    ∙ ap from (read_id-render i)
read_bound-text (after i) = ap after (read_id-render i)

show_test : render (record { ms = 1786729818929; seq = 0 }) ≡ codes "1786729818929-0"
unfolding render show_nat
show_test = refl
