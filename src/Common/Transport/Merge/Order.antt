-- ===== src/Common/Transport/Merge/Order.antt =====
-- What each stream has in the queue and among the lines given out, by _merge_streams of
-- packages/log-sump-common/src/log_sump_common/transport.py.
use log_sump.Base.{ℕ, suc, ◌+◌, ◌≤◌, ◌≡◌, refl, List, [], ◌∷◌, ◌++◌, if◌then◌else◌, nat_eq, arith}
use log_sump.Base.Text.{Text}
use log_sump.Common.Schema.{StreamName}
use log_sump.Common.Transport.{StreamLine}
use log_sump.Common.Transport.Merge.{same_stream, Item, line, through}

-- The texts of one stream's lines.
abbrev pub texts : StreamName → List StreamLine → List Text
texts n [] = []
texts n (l ∷ ls) = if same_stream n l.stream then l.text ∷ texts n ls else texts n ls

abbrev pub queued_texts : StreamName → List Item → List Text
queued_texts n [] = []
queued_texts n (line l ∷ q) =
    if same_stream n l.stream then l.text ∷ queued_texts n q else queued_texts n q
queued_texts n (through m ∷ q) = queued_texts n q

-- How often a stream's None is in the queue.
abbrev pub nones : StreamName → List Item → ℕ
nones n [] = 0
nones n (line l ∷ q) = nones n q
nones n (through m ∷ q) = if same_stream n m then suc (nones n q) else nones n q

-- How many items of a stream are in the queue.
abbrev pub items : StreamName → List Item → ℕ
items n [] = 0
items n (line l ∷ q) = if same_stream n l.stream then suc (items n q) else items n q
items n (through m ∷ q) = if same_stream n m then suc (items n q) else items n q

-- Behind a stream's None there is nothing more of that stream.
abbrev pub IsOrdered : StreamName → List Item → Type 0
IsOrdered n [] = Unit
IsOrdered n (line l ∷ q) = IsOrdered n q
IsOrdered n (through m ∷ q) = ((if same_stream n m then items n q else 0) ≡ 0) × IsOrdered n q

pub texts-append :
    (n : StreamName) (xs ys : List StreamLine) → texts n (xs ++ ys) ≡ texts n xs ++ texts n ys
texts-append n [] ys = refl
texts-append n (x ∷ xs) ys = ground (arith, texts-append n xs ys)

pub queued_texts-append :
    (n : StreamName) (xs ys : List Item)
    → queued_texts n (xs ++ ys) ≡ queued_texts n xs ++ queued_texts n ys
queued_texts-append n [] ys = refl
queued_texts-append n (line l ∷ xs) ys = ground (arith, queued_texts-append n xs ys)
queued_texts-append n (through m ∷ xs) ys = queued_texts-append n xs ys

pub nones-append :
    (n : StreamName) (xs ys : List Item) → nones n (xs ++ ys) ≡ nones n xs + nones n ys
nones-append n [] ys = omega arith
nones-append n (line l ∷ xs) ys = nones-append n xs ys
nones-append n (through m ∷ xs) ys = ground (arith, nones-append n xs ys)

pub items-append :
    (n : StreamName) (xs ys : List Item) → items n (xs ++ ys) ≡ items n xs + items n ys
items-append n [] ys = omega arith
items-append n (line l ∷ xs) ys = ground (arith, items-append n xs ys)
items-append n (through m ∷ xs) ys = ground (arith, items-append n xs ys)

pub nones-le-items : (n : StreamName) (q : List Item) → nones n q ≤ items n q
nones-le-items n [] = omega arith
nones-le-items n (line l ∷ q) = ground (arith, nones-le-items n q)
nones-le-items n (through m ∷ q) = ground (arith, nones-le-items n q)

pub queued_texts-of_items : (n : StreamName) (q : List Item) → items n q ≡ 0 → queued_texts n q ≡ []
queued_texts-of_items n [] h = refl
queued_texts-of_items n (line l ∷ q) h = ground (arith, h, queued_texts-of_items n q)
queued_texts-of_items n (through m ∷ q) h = ground (arith, h, queued_texts-of_items n q)

-- An item goes behind a queue that has no None of its stream.
pub IsOrdered-append :
    (n : StreamName) (q : List Item) (x : Item)
    → IsOrdered n q
    → (if nat_eq (items n (x ∷ [])) 0 then 0 else nones n q) ≡ 0
    → IsOrdered n (q ++ (x ∷ []))
IsOrdered-append n [] (line l) h k = tt
IsOrdered-append n [] (through m) h k = (ground arith, tt)
IsOrdered-append n (line m ∷ q) x h k = IsOrdered-append n q x h k
IsOrdered-append n (through m ∷ q) x (h, hs) k = (
  ground (arith, h, k, items-append n q (x ∷ [])),
  IsOrdered-append n q x hs (ground (arith, k, h)),
)
