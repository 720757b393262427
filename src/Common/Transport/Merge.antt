-- ===== src/Common/Transport/Merge.antt =====
-- _merge_streams of packages/log-sump-common/src/log_sump_common/transport.py: two pumps put the lines
-- of stdout and of stderr into one queue, and the generator takes them out.
pub mod Order
pub mod Complete
pub mod Ends
pub mod Stalled
mod Samples
use log_sump.Base.{ℕ, suc, ◌-◌, ◌≡◌, ◌≢◌, Bool, true, false, List, [], ◌∷◌, ◌++◌, if◌then◌else◌}
use log_sump.Base.Text.{Text}
use log_sump.Common.Schema.{StreamName, stdout, stderr}
use log_sump.Common.Transport.{StreamLine}

abbrev pub same_stream : StreamName → StreamName → Bool
same_stream stdout stdout = true
same_stream stderr stderr = true
same_stream stdout stderr = false
same_stream stderr stdout = false

-- f with f(name) = v
abbrev set {ℓ} : {A : Type ℓ} → StreamName → A → (StreamName → A) → StreamName → A
set name v f n = if same_stream n name then v else f n

-- What the queue holds: a line, or the None of a pump that is through. The generator does not see
-- whose None it is.
pub data Item : Type 0 where
  line : StreamLine → Item
  through : StreamName → Item

-- `left` are the lines that a stream will still give, decoded and without their newline; a pump that
-- has put its None is no longer open.
pub record Merge : Type 0 where
  pub left : StreamName → List Text
  pub is_open : StreamName → Bool
  pub queue : List Item
  pub remaining : ℕ
  pub yielded : List StreamLine

abbrev pub start : (StreamName → List Text) → Merge
start lines = record { left = lines; is_open = λ n. true; queue = []; remaining = 2; yielded = [] }

abbrev pumped : StreamName → List Text → Merge → Merge
pumped name [] s = record s {
  is_open = set name false s.is_open;
  queue = s.queue ++ (through name ∷ []);
}
pumped name (t ∷ ts) s = record s {
  left = set name ts s.left;
  queue = s.queue ++ (line (record { stream = name; text = t }) ∷ []);
}

-- One round of the loop of a pump, or what follows the loop.
unfoldable pub pump : StreamName → Merge → Merge
pump name s = pumped name (s.left name) s

abbrev taken : List Item → Merge → Merge
taken [] s = s
taken (line l ∷ queue) s = record s { queue = queue; yielded = s.yielded ++ (l ∷ []) }
taken (through name ∷ queue) s = record s { queue = queue; remaining = s.remaining - 1 }

-- One round of the loop of the generator, once the queue gives an item.
unfoldable pub get : Merge → Merge
get s = taken s.queue s

-- The pumps and the generator run in any order: a pump while it is open, the generator while some
-- pump remains.
pub data Step : Merge → Merge → Type 0 where
  pumps : (s : Merge) (name : StreamName) → s.is_open name ≡ true → Step s (pump name s)
  gets : (s : Merge) (k : ℕ) → s.remaining ≡ suc k → s.queue ≢ [] → Step s (get s)

-- k steps.
pub data Steps : ℕ → Merge → Merge → Type 0 where
  here : (s : Merge) → Steps 0 s s
  next : (k : ℕ) (s t u : Merge) → Step s t → Steps k t u → Steps (suc k) s u
