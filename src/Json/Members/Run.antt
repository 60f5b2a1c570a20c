-- ===== src/Json/Members/Run.antt =====
-- The two members of a `Value` through a program with several variables.
use bre_utils.Prelude.{ℕ, ◌≡◌}
use bre_utils.Json.Value.{Value}
use bre_utils.Json.Members.{Members, Variables}
use bre_utils.Json.Members.Agree.{members_of, Values}

-- The variables hold the members of the values.
Hold : Variables → Values → Type 0
Hold vs ws = (k : ℕ) → vs k ≡ members_of (ws k)
