-- ===== src/Server/Logs.antt =====
-- internal/server/logs.go: the ring buffer of log lines, and the lines of the page /logs. How slog
-- writes a time, a level and a value, and html.EscapeString, are parameters.
pub mod Recent
use warpbox.Base.{
  ℕ, zero, suc, ◌+◌, ◌-◌, ◌%◌, Bool, true, false, List, [], ◌∷◌, ◌++◌, map, ltb, ◌==◌,
  if◌then◌else◌, ◌||◌, length, replicate, get_or, set,
}
use warpbox.Base.Int.{ℤ, pos, negsuc}
use warpbox.Base.Text.{Text, codes}

abbrev pub ring_buffer_capacity : ℕ
ring_buffer_capacity = 1000

-- An attribute, with its value as %v writes it.
pub record Attr : Type 0 where
  pub is_group : Bool
  pub key : Text
  pub value : Text

-- A slog.Record: the time as Format writes it, and the name of the level.
pub record LogRecord : Type 0 where
  pub time : Text
  pub level : Text
  pub message : Text
  pub attrs : List Attr

pub record RingBuffer : Type 0 where
  pub buf : List Text
  pub pos : ℕ
  pub full : Bool

unfoldable pub new_ring_buffer : RingBuffer
new_ring_buffer = record { buf = replicate ring_buffer_capacity []; pos = 0; full = false }

-- %-5s
abbrev pad_level : Text → Text
pad_level level = level ++ replicate (5 - length level) b' '

abbrev write_attrs : Text → List Attr → Text
write_attrs line [] = line
write_attrs line (a ∷ attrs) =
    write_attrs
      (if a.is_group then line else line ++ (codes " " ++ (a.key ++ (codes "=" ++ a.value)))) attrs

unfoldable pub format_record : LogRecord → Text
format_record r =
    write_attrs (r.time ++ (codes " " ++ (pad_level r.level ++ (codes " " ++ r.message)))) r.attrs

-- Handle, before it hands the record to the wrapped handler.
unfoldable pub handle : LogRecord → RingBuffer → RingBuffer
handle r h =
    let pos' = (h.pos + 1) % ring_buffer_capacity in
    record {
      buf = set h.buf h.pos (format_record r);
      pos = pos';
      full = if pos' == 0 then true else h.full;
    }

-- The number of lines that a call asks for, within the capacity.
unfoldable pub line_count : ℤ → ℕ
line_count (pos n) = if (n == 0) || ltb ring_buffer_capacity n then ring_buffer_capacity else n
line_count (negsuc n) = ring_buffer_capacity

-- The loop of Lines at `i`, with `left` rounds to go. The index is not negative, since i is below the
-- capacity.
unfoldable pub read_back : RingBuffer → ℕ → ℕ → List Text
read_back h i zero = []
read_back h i (suc left) =
    get_or h.buf ((h.pos + ring_buffer_capacity - 1 - i) % ring_buffer_capacity) []
    ∷ read_back h (suc i) left

unfoldable pub lines : ℤ → RingBuffer → List Text
lines n h =
    let count = if h.full then ring_buffer_capacity else h.pos in
    read_back h 0 (if ltb count (line_count n) then count else line_count n)

-- The log lines of the page.
unfoldable pub handle_logs : (Text → Text) → RingBuffer → List Text
handle_logs escape h = map (λ line. escape line ++ codes "\n") (lines (ℤ.pos 200) h)
