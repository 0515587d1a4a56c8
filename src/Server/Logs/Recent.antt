-- ===== src/Server/Logs/Recent.antt =====
-- internal/server/logs.go: the ring buffer against the list of all records, the latest first.
use warpbox.Base.{
  ℕ, zero, suc, ◌+◌, ◌-◌, ◌%◌, ◌≤◌, ◌<◌, ◌≡◌, refl, ap, ap₂, List, [], ◌∷◌, map, leb, if◌then◌else◌,
  length, take, get_or, set, length-replicate, length-set, get_or-set_self, get_or-set_ne, arith,
  ◌∙◌, drop, ltb,
}
use warpbox.Base.Int.{ℤ, pos, negsuc}
use warpbox.Base.Text.{Text}
use warpbox.Server.Logs.{
  LogRecord, RingBuffer, new_ring_buffer, format_record, handle, line_count, read_back, lines,
}

-- The buffer behind some calls of Handle, the latest first.
unfoldable pub logged : List LogRecord → RingBuffer
logged [] = new_ring_buffer
logged (r ∷ earlier) = handle r (logged earlier)

-- What the buffer holds behind the calls: slot by slot, back from the position.
record IsHistory (records : List LogRecord) (h : RingBuffer) : Type 0 where
  size : length h.buf ≡ 1000
  place : h.pos ≡ length records % 1000
  filled : h.full ≡ leb 1000 (length records)
  slot :
      (i : ℕ)
      → i < 1000
      → i < length records
      → get_or h.buf ((h.pos + 1000 - 1 - i) % 1000) [] ≡ get_or (map format_record records) i []

new_ring_buffer-IsHistory : IsHistory [] new_ring_buffer
unfolding new_ring_buffer
new_ring_buffer-IsHistory = record {
  size = length-replicate {A = Text} 1000 [];
  place = refl;
  filled = refl;
  slot = λ i small h. absurd (omega arith);
}

handle-slot :
    (r : LogRecord) (records : List LogRecord) (h : RingBuffer)
    → IsHistory records h
    → (i : ℕ) → i < 1000
    → i < suc (length records)
    → get_or (set h.buf h.pos (format_record r)) (((h.pos + 1) % 1000 + 1000 - 1 - i) % 1000) []
      ≡ get_or (format_record r ∷ map format_record records) i []
unfolding get_or
handle-slot r records h v zero small le =
    let at : ((h.pos + 1) % 1000 + 1000 - 1 - 0) % 1000 ≡ h.pos = omega (arith, v.place) in
    rw at (get_or-set_self h.buf h.pos (format_record r) [] (omega (arith, v.place, v.size)))
handle-slot r records h v (suc i) small le =
    let at : ((h.pos + 1) % 1000 + 1000 - 1 - suc i) % 1000 ≡ (h.pos + 1000 - 1 - i) % 1000 =
      omega (arith, v.place) in
    rw at (
      get_or-set_ne h.buf h.pos ((h.pos + 1000 - 1 - i) % 1000) (format_record r) []
        (λ e. omega (arith, v.place))
      ∙ v.slot i (omega arith) (omega arith))

handle-IsHistory :
    (r : LogRecord) (records : List LogRecord) (h : RingBuffer)
    → IsHistory records h
    → IsHistory (r ∷ records) (handle r h)
unfolding handle
handle-IsHistory r records h v = record {
  size = length-set h.buf h.pos (format_record r) ∙ v.size;
  place = omega (arith, v.place);
  filled = ground (arith, v.place, v.filled);
  slot = handle-slot r records h v;
}

logged-IsHistory : (records : List LogRecord) → IsHistory records (logged records)
unfolding logged
logged-IsHistory [] = new_ring_buffer-IsHistory
logged-IsHistory (r ∷ earlier) =
    handle-IsHistory r earlier (logged earlier) (logged-IsHistory earlier)

drop_at : (l : List Text) (i : ℕ) → i < length l → drop i l ≡ get_or l i [] ∷ drop (suc i) l
unfolding get_or
drop_at [] i h = absurd (omega arith)
drop_at (x ∷ l) zero h = refl
drop_at (x ∷ l) (suc i) h = drop_at l i (omega arith)

length-map_format : (records : List LogRecord) → length (map format_record records) ≡ length records
length-map_format [] = refl
length-map_format (r ∷ records) = omega (arith, length-map_format records)

read_back-IsHistory :
    (records : List LogRecord) (h : RingBuffer)
    → IsHistory records h
    → (i left : ℕ) → i + left ≤ 1000
    → i + left ≤ length records
    → read_back h i left ≡ take left (drop i (map format_record records))
unfolding read_back
read_back-IsHistory records h v i zero small few = refl
read_back-IsHistory records h v i (suc left) small few =
    rw (drop_at (map format_record records) i (omega (arith, length-map_format records))) (
      ap₂ ◌∷◌ (v.slot i (omega arith) (omega arith))
        (read_back-IsHistory records h v (suc i) left (omega arith) (omega arith)))

take_enough :
    {A : Type 0} (l : List A) (m n : ℕ)
    → (if ltb (length l) n then length l else n) ≡ m
    → take m l ≡ take n l
take_enough [] zero zero e = refl
take_enough [] zero (suc n) e = refl
take_enough [] (suc m) n e = absurd (ground arith)
take_enough (x ∷ l) zero zero e = refl
take_enough (x ∷ l) zero (suc n) e = absurd (ground arith)
take_enough (x ∷ l) (suc m) zero e = absurd (ground arith)
take_enough (x ∷ l) (suc m) (suc n) e = ap (λ t. x ∷ t) (take_enough l m n (ground arith))

-- The number asked for if it is one from 1 to 1000, and 1000 otherwise.
unfoldable pub wanted : ℤ → ℕ
wanted (pos n) = if leb 1 n then (if leb n 1000 then n else 1000) else 1000
wanted (negsuc n) = 1000

line_count-wanted : (n : ℤ) → line_count n ≡ wanted n
unfolding line_count wanted
line_count-wanted (pos n) = ground arith
line_count-wanted (negsuc n) = refl

wanted-le : (n : ℤ) → wanted n ≤ 1000
unfolding wanted
wanted-le (pos n) = ground arith
wanted-le (negsuc n) = omega arith

-- Whatever was logged, the buffer gives back the latest lines, the newest first: as many as were asked
-- for where that is a number from 1 to 1000, and 1000 where it is not, or all if there are fewer.
pub lines-logged :
    (records : List LogRecord) (n : ℤ)
    → lines n (logged records) ≡ take (wanted n) (map format_record records)
unfolding lines
lines-logged records n =
    let v = logged-IsHistory records in
    let h = logged records in
    let count = if (logged records).full then 1000 else (logged records).pos in
    let m = if ltb count (wanted n) then count else wanted n in
    rw (line_count-wanted n) (
      read_back-IsHistory records (logged records) v 0 m
        (ground (arith, wanted-le n, v.place, v.filled))
        (ground (arith, wanted-le n, v.place, v.filled))
      ∙ take_enough (map format_record records) m (wanted n)
          (ground (arith, wanted-le n, v.place, v.filled, length-map_format records)))
