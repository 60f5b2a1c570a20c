-- ===== src/Uuid/Inv.antt =====
-- What a worker keeps: the sequence number stays between the bounds, or one above, and fits its
-- bits. `setOptions` accepts exactly the options that establish this.
use bre_utils.Prelude.{ℕ, ◌+◌, ◌^◌, ◌≤◌, ◌<◌, ◌≡◌, ◌↔◌, arith, ok}
use native.Mathlib.Nat.{one-le-pow, pow-le-pow_right}
use bre_utils.Uuid.{IdGenOptions, SnowWorker, default_max, chosen_max, fresh, set_options, next}

pub record IsValid (w : SnowWorker) : Type 0 where
  pub bits_low : 2 ≤ w.seq_bit_length
  pub bits_high : w.seq_bit_length ≤ 21
  pub min_low : 5 ≤ w.min_seq_number
  pub min_high : w.min_seq_number ≤ w.max_seq_number
  pub max_fits : w.max_seq_number < 2 ^ w.seq_bit_length
  pub seq_low : w.min_seq_number ≤ w.current_seq_number
  pub seq_high : w.current_seq_number ≤ w.max_seq_number + 1

-- The options that `setOptions` accepts at the time `now`.
pub record IsAccepted (now : ℕ) (o : IdGenOptions) : Type 0 where
  pub base_low : 631123200000 ≤ o.base_time
  pub base_high : o.base_time ≤ now
  pub bits_low : 2 ≤ o.seq_bit_length
  pub bits_high : o.seq_bit_length ≤ 21
  pub max_fits : o.max_seq_number ≤ default_max o.seq_bit_length
  pub min_low : 5 ≤ o.min_seq_number
  pub min_high : o.min_seq_number ≤ chosen_max o

pub pow_pos : (k : ℕ) → 1 ≤ 2 ^ k
pow_pos k = one-le-pow k 2 (omega arith)

pub pow_le : (k : ℕ) → k ≤ 21 → 2 ^ k ≤ 2 ^ 21
pow_le k h = pow-le-pow_right {n = 2} (omega arith) {i = k} {j = 21} h

-- The constructor accepts the options exactly if they meet the six bounds of `IsAccepted`, and then
-- its members are those of `fresh`.
set_options_iff :
    (now : ℕ) (o : IdGenOptions) → IsAccepted now o ↔ (set_options now o ≡ ok (fresh o))
unfolding set_options
set_options_iff now o = (λ a. ground arith, λ h. ground arith)

-- A new worker is valid.
pub fresh-IsValid : {now : ℕ} {o : IdGenOptions} → IsAccepted now o → IsValid (fresh o)
fresh-IsValid {now} {o} a = ground (arith, pow_pos o.seq_bit_length)

-- `Next` keeps the invariant of a worker, whatever the clock shows.
pub next-IsValid : (now : ℕ) {w : SnowWorker} → IsValid w → IsValid (next now w).1
unfolding next
next-IsValid now {w} v = ground (arith, pow_le w.seq_bit_length)
