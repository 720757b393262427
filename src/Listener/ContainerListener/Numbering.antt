-- ===== src/Listener/ContainerListener/Numbering.antt =====
-- The numbers that packages/log-sump-listener/src/log_sump_listener/container_listener.py gives to
-- the records of a container.
use mathlib.Core.Option
use mathlib.Core.Option.{some-injective}
use log_sump.Base.{
  ℕ, suc, ◌≤◌, ◌<◌, ◌≡◌, refl, sym, ap, Option, none, some, List, [], ◌∷◌, arith, if◌then◌else◌,
  nat_eq,
}
use log_sump.Base.Int.{pos}
use log_sump.Base.Text.{Text}
use log_sump.Common.Schema.{LogRecord, DateTime}
use log_sump.Common.Transport.{StreamLine}
use log_sump.Listener.ContainerListener.{
  Library, dated, parse_line, listen, run_container_listener, ship,
}

-- The line that a listener numbers `seq`, where it numbers the first one `first`.
abbrev pub line_at : ℕ → ℕ → List StreamLine → Option StreamLine
line_at first seq [] = none
line_at first seq (line ∷ lines) =
    if nat_eq seq first then some line else line_at (suc first) seq lines

-- The numbers are above `low`, ascend, and each is that of the line its record is from.
abbrev pub Numbered : ℕ → List StreamLine → ℕ → List LogRecord → Type 0
Numbered first lines low [] = Unit
Numbered first lines low (r ∷ records) =
    ((seq : ℕ) × (r.base.seq ≡ pos seq)
      × (low ≤ seq)
      × (Option.map (λ l. l.text) (line_at first seq lines) ≡ some r.raw)
      × (Option.map (λ l. l.stream) (line_at first seq lines) ≡ some r.stream)
      × Numbered first lines (suc seq) records)

weaker :
    (first : ℕ) (lines : List StreamLine) (low lower : ℕ) (records : List LogRecord)
    → lower ≤ low
    → Numbered first lines low records
    → Numbered first lines lower records
weaker first lines low lower [] h n = tt
weaker first lines low lower (r ∷ records) h (seq, a, b, c, d, rest) =
    (seq, a, ground (arith, h, b), c, d, rest)

-- A line in front is not looked at.
behind :
    (first : ℕ) (line : StreamLine) (lines : List StreamLine) (low : ℕ) (records : List LogRecord)
    → first < low
    → Numbered (suc first) lines low records
    → Numbered first (line ∷ lines) low records
behind first line lines low [] h n = tt
behind first line lines low (r ∷ records) h (seq, a, b, c, d, rest) = (
  seq,
  a,
  b,
  ground (arith, h, b, c),
  ground (arith, h, b, d),
  behind first line lines (suc seq) records (omega (arith, h, b)) rest,
)

module _ (lib : Library) (host id name : Text) where
  dated_lem :
      (line : StreamLine) (seq : ℕ) (time : Option DateTime) (payload : Text) (r : LogRecord)
      → dated lib host id name line seq time payload ≡ some r
      → (r.base.seq ≡ pos seq) × (r.raw ≡ line.text) × (r.stream ≡ line.stream)
  dated_lem line seq none payload r h = absurd (ground (arith, h))
  dated_lem line seq (some ts) payload r h =
      let e = some-injective _ _ h in
      (sym (ap (λ x. x.base.seq) e), sym (ap (λ x. x.raw) e), sym (ap (λ x. x.stream) e))

  parse_line_lem :
      (line : StreamLine) (seq : ℕ) (r : LogRecord)
      → parse_line lib host id name line seq ≡ some r
      → (r.base.seq ≡ pos seq) × (r.raw ≡ line.text) × (r.stream ≡ line.stream)
  unfolding parse_line
  parse_line_lem line seq r h = dated_lem line seq _ _ r h

  ship-Numbered :
      (first : ℕ) (line : StreamLine) (lines : List StreamLine) (o : Option LogRecord)
      (records : List LogRecord)
      → parse_line lib host id name line first ≡ o
      → Numbered (suc first) lines (suc first) records
      → Numbered first (line ∷ lines) first (ship lib o records)
  ship-Numbered first line lines none records h n =
      weaker first (line ∷ lines) (suc first) first records (omega arith)
        (behind first line lines (suc first) records (omega arith) n)
  ship-Numbered first line lines (some r) records h n =
      let (a, b, c) = parse_line_lem line first r h in
      (
        first,
        a,
        omega arith,
        ground (arith, b),
        ground (arith, c),
        behind first line lines (suc first) records (omega arith) n,
      )

  listen-Numbered :
      (first : ℕ) (lines : List StreamLine)
      → Numbered first lines first (listen lib host id name first lines)
  unfolding listen
  listen-Numbered first [] = tt
  listen-Numbered first (line ∷ lines) =
      ship-Numbered first line lines (parse_line lib host id name line first) _ refl
        (listen-Numbered (suc first) lines)

  -- The records that a listener logs have ascending numbers, from 1 on, and the record with number n
  -- has the text and the stream of the n-th line of the container's output: a line that gives no
  -- record leaves its number out.
  pub run_container_listener-Numbered :
      (lines : List StreamLine) → Numbered 1 lines 1 (run_container_listener lib host id name lines)
  unfolding run_container_listener
  run_container_listener-Numbered lines = listen-Numbered 1 lines
