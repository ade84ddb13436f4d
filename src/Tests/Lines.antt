-- ===== src/Tests/Lines.antt =====
-- The theorems on the serial line applied to a small one.
use sth.Base.{
  ℕ, suc, ◌≤◌, ◌≡◌, refl, arith, bit_and, Bool, true, false, not, ◌==◌, if◌then◌else◌, some, List,
  [], ◌∷◌, ◌++◌,
}
use sth.Library.Bytes.{Bytes}
use sth.Library.Print.{printf_string}
use sth.Hardware.{Bus}
use sth.Hardware.Uart.Laws.{IsLine}
use sth.Hardware.Console.{put_string, put_string-prints}

-- A line at 0x100 that is busy for one read of the status after each character.
record Line : Type 0 where
  sent : List ℕ
  divisor : Bool
  room : Bool
  pending : Bool

abbrev line : Bus Line
line = record {
  read = λ a d. if a == 0x10c then (if d.divisor then 0x80 else 3, d) else (
    if d.pending then 0 else 0x20,
    record d { room = if d.pending then d.room else true; pending = false },
  );
  write = λ a w d.
      if a == 0x10c
      then record d { divisor = not (bit_and w 0x80 == 0) }
      else if a == 0x100
      then record d {
        sent = if d.divisor then d.sent else if d.room then d.sent ++ w ∷ [] else d.sent;
        room = false;
        pending = true;
      }
      else d;
}

abbrev reads_of : Bool → ℕ
reads_of t = if t then 1 else 0

abbrev reads_left : Line → ℕ
reads_left d = reads_of d.pending

line-IsLine : IsLine line 0x100 1 (λ d. d.sent) (λ d. d.divisor) (λ d. d.room) reads_left
line-IsLine = record {
  control_read = λ d. refl;
  control_bit = λ d. by_divisor d.divisor;
  control_sent = λ w d. refl;
  control_divisor = λ w d. refl;
  control_busy = λ w d. refl;
  status_sent = λ d. refl;
  status_divisor = λ d. refl;
  status_ready = λ d h. ready_then d.pending d.room h;
  status_empty = λ d h. empty_then d.pending h;
  status_busy = λ k d h. less_then d.pending k h;
  drains = λ d. at_most_one d.pending;
  written = λ c d off free. rw (off, free) refl;
}
  where
    by_divisor : (t : Bool) → (bit_and (if t then 0x80 else 3) 0x80 == 0) ≡ not t
    by_divisor true = refl
    by_divisor false = refl

    ready_then :
        (t room : Bool)
        → (bit_and (if t then 0 else 0x20) 0x20 == 0) ≡ false
        → (if t then room else true) ≡ true
    ready_then true room h = absurd (ground (arith, h))
    ready_then false room h = refl

    empty_then : (t : Bool) → reads_of t ≡ 0 → (bit_and (if t then 0 else 0x20) 0x20 == 0) ≡ false
    empty_then true h = absurd (omega (arith, h))
    empty_then false h = refl

    less_then : (t : Bool) (k : ℕ) → reads_of t ≡ suc k → 0 ≡ k
    less_then true k h = omega (arith, h)
    less_then false k h = absurd (omega (arith, h))

    at_most_one : (t : Bool) → reads_of t ≤ 1
    at_most_one t = ground arith

abbrev idle : Line
idle = record { sent = 65 ∷ []; divisor = true; room = false; pending = false }

-- `h` and a line feed at 0x40.
abbrev text : Bytes
text a = if a == 0x40 then 104 else if a == 0x41 then 10 else 0

put_string-prints_example :
    (d' : Line) × (put_string line 2 3 0x100 0x40 text idle ≡ some (tt, d'))
    × (d'.sent ≡ 65 ∷ 104 ∷ 10 ∷ 13 ∷ [])
unfolding printf_string
put_string-prints_example =
    put_string-prints Line line 0x100 1 (λ d. d.sent) (λ d. d.divisor) (λ d. d.room) reads_left 2 3
      0x40 text (104 ∷ 10 ∷ []) idle line-IsLine (λ e. omega (arith, e)) (omega arith)
      (λ a. ground arith) refl
