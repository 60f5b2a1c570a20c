-- ===== src/Uuid.antt =====
-- breUtils/uuid/uuid.hpp: `SnowWorker`, the id generator, and the singleton `IdGenerator` on top.
-- A call takes the milliseconds that `std::chrono::system_clock` shows as an argument. The lock of
-- `Next` makes each call one step. An `int64_t` tick is compared without a subtraction, so that a
-- clock before the base time needs no negative number; an id is the 64-bit pattern of the result.
pub mod Inv
pub mod Order
pub mod Singleton
mod Tests
use bre_utils.Prelude.{
  ℕ, ◌+◌, ◌-◌, ◌*◌, ◌%◌, ◌^◌, bit_or, Option, none, some, ◌||◌, ltb, ◌==◌, if◌then◌else◌, Result,
  ok, err,
}

pub record IdGenOptions : Type 0 where
  pub base_time : ℕ
  pub seq_bit_length : ℕ
  pub max_seq_number : ℕ
  pub min_seq_number : ℕ

abbrev pub default_options : IdGenOptions
default_options = record {
  base_time = 631123200000;
  seq_bit_length = 8;
  max_seq_number = 20;
  min_seq_number = 5;
}

pub record SnowWorker : Type 0 where
  pub base_time : ℕ
  pub seq_bit_length : ℕ
  pub max_seq_number : ℕ
  pub min_seq_number : ℕ
  pub last_time_tick : ℕ
  pub current_seq_number : ℕ

-- The `std::invalid_argument` of each check of `setOptions`.
pub data Error : Type 0 where
  base_time_error seq_bit_length_error max_seq_number_error min_seq_number_error : Error

abbrev pub default_max : ℕ → ℕ
default_max bits = 2 ^ bits - 1

-- `_maxSeqNumber` after `setOptions`
abbrev pub chosen_max : IdGenOptions → ℕ
chosen_max o = if o.max_seq_number == 0 then default_max o.seq_bit_length else o.max_seq_number

-- The members as `setOptions` leaves them when it does not throw.
abbrev pub fresh : IdGenOptions → SnowWorker
fresh o = record {
  base_time = o.base_time;
  seq_bit_length = o.seq_bit_length;
  max_seq_number = chosen_max o;
  min_seq_number = o.min_seq_number;
  last_time_tick = 0;
  current_seq_number = o.min_seq_number;
}

-- `setOptions`, on the worker under construction, where `_baseTime` is still 0: the clock's tick
-- and `_baseTime` add up to `now`.
unfoldable pub set_options : ℕ → IdGenOptions → Result Error SnowWorker
set_options now o =
    if ltb o.base_time 631123200000 || ltb now o.base_time
    then err base_time_error
    else if ltb o.seq_bit_length 2 || ltb 21 o.seq_bit_length
    then err seq_bit_length_error
    else if ltb (default_max o.seq_bit_length) o.max_seq_number
    then err max_seq_number_error
    else if ltb o.min_seq_number 5 || ltb (chosen_max o) o.min_seq_number
    then err min_seq_number_error
    else ok (fresh o)

-- The id of the worker's tick and sequence number; the number moves on.
unfoldable pub calculate_id : SnowWorker → ℕ × SnowWorker
calculate_id w = (
  bit_or (w.last_time_tick * 2 ^ w.seq_bit_length % 2 ^ 64) w.current_seq_number,
  record w { current_seq_number = (w.current_seq_number + 1) % 2 ^ 32 },
)

-- The tick and the sequence number that `Next` settles on: `now - _baseTime > _lastTimeTick` is
-- `_baseTime + _lastTimeTick < now`.
unfoldable pub settle : ℕ → SnowWorker → SnowWorker
settle now w =
    if ltb (w.base_time + w.last_time_tick) now
    then record w { last_time_tick = now - w.base_time; current_seq_number = w.min_seq_number }
    else if ltb w.max_seq_number w.current_seq_number
    then record w { last_time_tick = w.last_time_tick + 1; current_seq_number = w.min_seq_number }
    else w

unfoldable pub next : ℕ → SnowWorker → ℕ × SnowWorker
unfolding calculate_id settle
next now w = calculate_id (settle now w)

-- The singleton's `_worker`.
pub record IdGenerator : Type 0 where
  pub worker : Option SnowWorker

-- The flag that guards the initialisation is a local variable: each call passes it, and puts a
-- new worker in place. If the options are refused, the old one stays.
unfoldable pub instance_of : ℕ → IdGenerator → Result Error SnowWorker × IdGenerator
unfolding set_options
instance_of now g = elim (set_options now default_options) [
  | ok w ↦ (ok w, record { worker = some w })
  | err e ↦ (err e, g)
]

-- `IdGenerator::Next()`: the clock is read in the constructor of the worker, and again in `Next`.
unfoldable pub next_id : ℕ → ℕ → IdGenerator → Result Error ℕ × IdGenerator
unfolding instance_of next
next_id start now g = elim (instance_of start g).0 [
  | ok w ↦ let (id, w') = next now w in (ok id, record { worker = some w' })
  | err e ↦ (err e, (instance_of start g).1)
]
