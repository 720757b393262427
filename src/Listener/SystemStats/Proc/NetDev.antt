-- ===== src/Listener/SystemStats/Proc/NetDev.antt =====
-- The table of /proc/net/dev, and what
-- packages/log-sump-listener/src/log_sump_listener/system_stats.py sums over it.
use log_sump.Base.{
  ℕ, ◌+◌, ◌≡◌, refl, ap, ◌∙◌, inl, inr, Bool, true, false, ◌||◌, Bool-cases, none, some, List, [],
  ◌∷◌, ◌++◌, map, All, All-append, foldl, if◌then◌else◌, nat_eq, arith,
}
use log_sump.Base.Int.{pos, pos-+ℤ}
use log_sump.Base.Text.{Text, codes, ◌==◌, truthy}
use log_sump.Base.Strip.{IsGap, strip-word, truthy-word}
use log_sump.Base.Words.{
  split_words, partition_at, partition_at-append, IsWord, split_words-space, spaced,
  split_words-spaced,
}
use log_sump.Base.Numerals.{Ints, show_nat, show_nat-IsWord}
use log_sump.Listener.SystemStats.Proc.{
  Totals, no_totals, found_totals, add_interface, net_dev_line, net_dev_of_lines,
}

-- A row: the received bytes, the seven columns behind them, the transmitted bytes, and further columns.
pub record Interface : Type 0 where
  pub gap : Text
  pub name : Text
  pub rx : ℕ
  pub packets : ℕ
  pub errs : ℕ
  pub drop : ℕ
  pub fifo : ℕ
  pub frame : ℕ
  pub compressed : ℕ
  pub multicast : ℕ
  pub tx : ℕ
  pub more : List ℕ

abbrev pub columns : Interface → List ℕ
columns i =
    i.rx ∷ i.packets ∷ i.errs ∷ i.drop ∷ i.fifo ∷ i.frame ∷ i.compressed ∷ i.multicast ∷ i.tx
    ∷ i.more

abbrev pub row_of : Interface → Text
row_of i = (i.gap ++ i.name) ++ (b':' ∷ b' ' ∷ spaced (map show_nat (columns i)))

abbrev pub NoColon : Text → Type 0
NoColon s = All (λ c. nat_eq c b':' ≡ false) s

abbrev pub IsInterface : Interface → Type 0
IsInterface i = IsGap i.gap × IsWord i.name × NoColon i.name

-- The sums over the interfaces but loopback, and whether there is one.
abbrev pub is_lo : Interface → Bool
is_lo i = i.name == codes "lo"

abbrev pub rx_total : List Interface → ℕ
rx_total [] = 0
rx_total (i ∷ is) = (if is_lo i then 0 else i.rx) + rx_total is

abbrev pub tx_total : List Interface → ℕ
tx_total [] = 0
tx_total (i ∷ is) = (if is_lo i then 0 else i.tx) + tx_total is

abbrev pub has_other : List Interface → Bool
has_other [] = false
has_other (i ∷ is) = (if is_lo i then false else true) || has_other is

space-NoColon : (gap : Text) → IsGap gap → NoColon gap
space-NoColon [] h = tt
space-NoColon (c ∷ gap) (h, hs) = (ground (arith, h), space-NoColon gap hs)

pub show-words : (ns : List ℕ) → All IsWord (map show_nat ns)
show-words [] = tt
show-words (n ∷ ns) = (show_nat-IsWord n, show-words ns)

words-row :
    (i : Interface)
    → split_words (b' ' ∷ spaced (map show_nat (columns i))) ≡ map show_nat (columns i)
words-row i =
    split_words-space b' ' (spaced (map show_nat (columns i))) refl
    ∙ split_words-spaced (map show_nat (columns i)) (show-words (columns i))

abbrev totals : ℕ → ℕ → Bool → Totals
totals a b f = record { first = pos a; second = pos b; found = f }

module _ (ints : Ints) where
  interface_lem :
      (i : Interface) (a b : ℕ) (f : Bool)
      → truthy i.name ≡ true
      → add_interface ints i.name (map show_nat (columns i)) (totals a b f)
        ≡ (if is_lo i then totals a b f else totals (a + i.rx) (b + i.tx) true)
  interface_lem i a b f t =
      ground (arith, t, ints.int_show i.rx, ints.int_show i.tx, pos-+ℤ a i.rx, pos-+ℤ b i.tx)

  row_lem :
      (i : Interface) (a b : ℕ) (f : Bool)
      → IsInterface i
      → net_dev_line ints (totals a b f) (row_of i)
        ≡ (if is_lo i then totals a b f else totals (a + i.rx) (b + i.tx) true)
  unfolding net_dev_line
  row_lem i a b f (g, w, n) =
      let split =
        partition_at-append b':' (i.gap ++ i.name) (b' ' ∷ spaced (map show_nat (columns i)))
          (All-append (λ c. nat_eq c b':' ≡ false) i.gap i.name (space-NoColon i.gap g) n) in
      rw (net_dev_line, split)
        (ap
            (λ s.
              add_interface ints s (split_words (b' ' ∷ spaced (map show_nat (columns i))))
                (totals a b f))
            (strip-word i.gap i.name g w)
          ∙ ap (λ ws. add_interface ints i.name ws (totals a b f)) (words-row i)
          ∙ interface_lem i a b f (truthy-word i.name w))

  rows_lem :
      (is : List Interface) (a b : ℕ) (f : Bool)
      → All IsInterface is
      → foldl (net_dev_line ints) (totals a b f) (map row_of is)
        ≡ totals (a + rx_total is) (b + tx_total is) (f || has_other is)
  rows_lem [] a b f h = ground arith
  rows_lem (i ∷ is) a b f (h, hs) =
      ap (λ t. foldl (net_dev_line ints) t (map row_of is)) (row_lem i a b f h)
      ∙ elim (Bool-cases (is_lo i)) [
        | inl k ↦ rw k (rows_lem is a b f hs ∙ ground arith)
        | inr k ↦ rw k (rows_lem is (a + i.rx) (b + i.tx) true hs ∙ ground arith)
      ]

  no_colon : (l : Text) (t : Totals) → partition_at b':' l ≡ none → net_dev_line ints t l ≡ t
  unfolding net_dev_line
  no_colon l t h = rw (net_dev_line, h) refl

  header_lem :
      (header : List Text) (lines : List Text) (t : Totals)
      → All (λ l. partition_at b':' l ≡ none) header
      → foldl (net_dev_line ints) t (header ++ lines) ≡ foldl (net_dev_line ints) t lines
  unfolding net_dev_line
  header_lem [] lines t h = refl
  header_lem (l ∷ header) lines t (h, hs) =
      ap (λ t. foldl (net_dev_line ints) t (header ++ lines)) (no_colon l t h)
      ∙ header_lem header lines t hs

  -- Of a table of interfaces, below a header without a colon, the sums of the received and of the
  -- transmitted bytes of all interfaces but loopback are read, and nothing if there is no other.
  pub net_dev_of_lines-table :
      (header : List Text) (is : List Interface)
      → All (λ l. partition_at b':' l ≡ none) header
      → All IsInterface is
      → net_dev_of_lines ints (header ++ map row_of is)
        ≡ (if has_other is then some (pos (rx_total is), pos (tx_total is)) else none)
  unfolding net_dev_of_lines
  net_dev_of_lines-table header is h hs =
      ap (found_totals (λ n. n))
        (header_lem header (map row_of is) no_totals h ∙ rows_lem is 0 0 false hs)
      ∙ ground arith
