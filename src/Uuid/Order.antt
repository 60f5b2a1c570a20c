-- ===== src/Uuid/Order.antt =====
-- Ids of one worker never repeat: each is above all that came before, also when the clock stands
-- still or goes back.
use bre_utils.Prelude.{ℕ, suc, ◌+◌, ◌-◌, ◌*◌, ◌^◌, ◌≤◌, ◌<◌, ◌≡◌, arith, List, [], ◌∷◌, length}
use bre_utils.Prelude.Bits.{bit_or-shifted}
use native.Mathlib.Nat.{mul-le-mul_right, mod-eq_of_lt}
use bre_utils.Uuid.{SnowWorker, calculate_id, settle, next}
use bre_utils.Uuid.Inv.{IsValid, next-IsValid, pow_pos, pow_le}

-- No later id of the worker is below this.
abbrev pub mark : SnowWorker → ℕ
mark w = w.last_time_tick * 2 ^ w.seq_bit_length + w.current_seq_number

record Settles (w s : SnowWorker) : Type 0 where
  valid : IsValid s
  in_use : s.current_seq_number ≤ s.max_seq_number
  same_bits : s.seq_bit_length ≡ w.seq_bit_length
  above : mark w ≤ mark s

-- One tick more makes room for a whole range of sequence numbers.
tick_room : (a b p c : ℕ) → suc a ≤ b → c ≤ p → a * p + c ≤ b * p
tick_room a b p c h k = omega (arith, mul-le-mul_right p h)

settle-Settles : (now : ℕ) {w : SnowWorker} → IsValid w → Settles w (settle now w)
unfolding settle
settle-Settles now {w} v = ground (
  arith,
  tick_room w.last_time_tick (now - w.base_time) (2 ^ w.seq_bit_length) w.current_seq_number,
  tick_room w.last_time_tick (w.last_time_tick + 1) (2 ^ w.seq_bit_length) w.current_seq_number,
)

-- The id of a settled worker is its mark, if its tick leaves room.
calculate_id_lem :
    {s : SnowWorker}
    → IsValid s
    → s.current_seq_number ≤ s.max_seq_number
    → (s.last_time_tick + 1) * 2 ^ s.seq_bit_length ≤ 2 ^ 63
    → ((calculate_id s).0 ≡ mark s) × (mark (calculate_id s).1 ≡ suc (mark s)) × (mark s < 2 ^ 63)
unfolding calculate_id
calculate_id_lem {s} v u h =
    let p = pow_le s.seq_bit_length v.bits_high in
    let small : s.last_time_tick * 2 ^ s.seq_bit_length < 2 ^ 64 =
      omega (arith, pow_pos s.seq_bit_length) in
    (
      rw (
        mod-eq_of_lt small,
        bit_or-shifted s.seq_bit_length s.last_time_tick s.current_seq_number (omega arith),
      ),
      omega arith,
      omega arith,
    )

-- One call: the id lies at or above the mark and below 2 ^ 63, and the new mark is one above it.
next_lem :
    (now : ℕ) {w : SnowWorker}
    → IsValid w
    → ((settle now w).last_time_tick + 1) * 2 ^ w.seq_bit_length ≤ 2 ^ 63
    → (mark w ≤ (next now w).0)
      × (mark (next now w).1 ≡ suc (next now w).0)
      × ((next now w).0 < 2 ^ 63)
unfolding next
next_lem now {w} v h =
    let s = settle-Settles now v in
    let c = calculate_id_lem s.valid s.in_use (rw s.same_bits h) in
    (omega (arith, s.above), omega arith, omega arith)

-- The ids of calls at which the clock shows these times.
unfoldable pub run : List ℕ → SnowWorker → List ℕ
run [] w = []
run (now ∷ times) w = let (id, w') = next now w in id ∷ run times w'

-- Each id is below 2 ^ 63, and above `low` and all before it.
abbrev pub IsAscending : ℕ → List ℕ → Type 0
IsAscending low [] = Unit {0}
IsAscending low (id ∷ ids) = (low ≤ id) × (id < 2 ^ 63) × IsAscending (suc id) ids

-- The tick stays at or below `tick` in the worker, and the clock too.
abbrev pub Below : ℕ → ℕ → List ℕ → Type 0
Below base tick [] = Unit {0}
Below base tick (now ∷ times) = (now ≤ base + tick) × Below base tick times

Below-suc : (base tick : ℕ) (times : List ℕ) → Below base tick times → Below base (suc tick) times
Below-suc base tick [] h = tt
Below-suc base tick (now ∷ times) h = (omega arith, Below-suc base tick times h.1)

settle_tick :
    (now tick : ℕ) (w : SnowWorker)
    → w.last_time_tick ≤ tick
    → now ≤ w.base_time + tick
    → (settle now w).last_time_tick ≤ suc tick
unfolding settle
settle_tick now tick w h k = ground arith

next_keeps :
    (now : ℕ) (w : SnowWorker)
    → ((next now w).1.last_time_tick ≡ (settle now w).last_time_tick)
      × ((next now w).1.base_time ≡ w.base_time)
      × ((next now w).1.seq_bit_length ≡ w.seq_bit_length)
unfolding next calculate_id settle
next_keeps now w = ground arith

-- The ids of any calls of `Next` on one valid worker are strictly ascending, from the mark of the
-- worker on, whatever the clock shows, back in time included. The conditions: no time shown lies
-- more than `tick` after the base time, the worker's last tick is no later than
-- `tick`, and `tick` with one millisecond more for each call still fits the bits of a signed 64-bit
-- id that the sequence number leaves.
pub run-IsAscending :
    (times : List ℕ) (tick : ℕ) {w : SnowWorker}
    → IsValid w
    → w.last_time_tick ≤ tick
    → Below w.base_time tick times
    → (tick + length times + 1) * 2 ^ w.seq_bit_length ≤ 2 ^ 63
    → IsAscending (mark w) (run times w)
unfolding run
run-IsAscending [] tick v h b room = tt
run-IsAscending (now ∷ times) tick {w} v h b room =
    let k = next_keeps now w in
    let t = settle_tick now tick w h b.0 in
    let fits : ((settle now w).last_time_tick + 1) * 2 ^ w.seq_bit_length
        ≤ (tick + suc (length times) + 1) * 2 ^ w.seq_bit_length =
      mul-le-mul_right (2 ^ w.seq_bit_length) (omega arith) in
    let n = next_lem now v (omega arith) in
    let count : suc tick + length times + 1 ≡ tick + suc (length times) + 1 = omega arith in
    let rest =
      run-IsAscending times (suc tick) (next-IsValid now v) (omega arith)
        (rw k.1 (Below-suc w.base_time tick times b.1)) (rw (k.2, count) room) in
    (n.0, n.2, rw n.1 at rest)
