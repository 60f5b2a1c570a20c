-- ===== src/Net/Server/Keys.antt =====
-- The keys of the server's table are the numbers of the sessions so far.
use bre_utils.Prelude.{
  ℕ, ◌+◌, ◌<◌, ◌≤◌, ◌^◌, ◌≡◌, refl, ap, sym, ◌∙◌, Bool, true, false, Option, none, some, List,
  Bytes, to_decimal, decimal_value, decimal_value-to_decimal, find_key, put, find_key-put, equal,
  equal_iff, if◌then◌else◌, Option-cases, inl, inr, arith,
}
use bre_utils.Net.Session.Writer.{TcpSession}
use bre_utils.Net.Server.{TcpServer}

abbrev pub present : Option TcpSession → Bool
present none = false
present (some s) = true

abbrev pub Table : Type 0
Table = List (Bytes × TcpSession)

-- The keys are texts of numbers below the bound.
unfoldable pub Numbered : ℕ → Table → Type 0
Numbered n sessions =
    (id : Bytes) → present (find_key sessions id) ≡ true → (k : ℕ) × (k < n) × (id ≡ to_decimal k)

-- No key is lost.
abbrev pub Kept : Table → Table → Type 0
Kept sessions later =
    (id : Bytes) → present (find_key sessions id) ≡ true → present (find_key later id) ≡ true

put_present :
    (sessions : Table) (key : Bytes) (s : TcpSession) (id : Bytes) (same : Bool)
    → present (find_key sessions id) ≡ true
    → present (if same then some s else find_key sessions id) ≡ true
put_present sessions key s id true h = refl
put_present sessions key s id false h = h

pub put-Kept :
    (sessions : Table) (key : Bytes) (s : TcpSession) → Kept sessions (put sessions key s)
put-Kept sessions key s id h =
    ap present (find_key-put sessions key s id) ∙ put_present sessions key s id (equal key id) h

key-Numbered :
    (n : ℕ) (sessions : Table) (key : Bytes) (s : TcpSession) (id : Bytes) (same : Bool)
    → Numbered n sessions
    → (k : ℕ) × (k < n) × (key ≡ to_decimal k)
    → (same ≡ true → key ≡ id)
    → present (if same then some s else find_key sessions id) ≡ true
    → (k : ℕ) × (k < n) × (id ≡ to_decimal k)
unfolding Numbered
key-Numbered n sessions key s id true v (k, below, is) same h = (k, below, sym (same refl) ∙ is)
key-Numbered n sessions key s id false v number same h = v id h

pub put-Numbered :
    (n : ℕ) (sessions : Table) (key : Bytes) (s : TcpSession)
    → Numbered n sessions
    → (k : ℕ) × (k < n) × (key ≡ to_decimal k)
    → Numbered n (put sessions key s)
unfolding Numbered
put-Numbered n sessions key s v number id h =
    key-Numbered n sessions key s id (equal key id) v number (λ e. (equal_iff key id).0 e)
      (sym (ap present (find_key-put sessions key s id)) ∙ h)

pub Numbered-weaken :
    (n m : ℕ) (sessions : Table) → n ≤ m → Numbered n sessions → Numbered m sessions
unfolding Numbered
Numbered-weaken n m sessions le v id h = let (k, below, is) = v id h in (k, omega arith, is)

to_decimal_injective : (n k : ℕ) → n < 10 ^ 20 → k < 10 ^ 20 → to_decimal n ≡ to_decimal k → n ≡ k
to_decimal_injective n k hn hk e =
    sym (decimal_value-to_decimal n hn) ∙ ap (decimal_value 0) e ∙ decimal_value-to_decimal k hk

-- The number of the next session is no key.
pub fresh_key :
    (n : ℕ) (sessions : Table)
    → n < 10 ^ 20
    → Numbered n sessions
    → find_key sessions (to_decimal n) ≡ none
unfolding Numbered
fresh_key n sessions few v = elim (Option-cases (find_key sessions (to_decimal n))) [
  | inl absent ↦ absent
  | inr (s, e) ↦
      let (k, below, is) = v (to_decimal n) (ap present e) in
      let same : n ≡ k = to_decimal_injective n k few (omega arith) is in absurd (omega arith)
]

-- The server with the number of its next session.
pub record Valid (v : TcpServer) : Type 0 where
  pub number : ℕ
  pub next : v.pending.session_id ≡ to_decimal number
  pub below : number < v.counter
  pub numbered : Numbered number v.sessions

-- What a step keeps of the table and of the reports.
pub record Keeps (v w : TcpServer) : Type 0 where
  pub valid : Valid w
  pub kept : Kept v.sessions w.sessions
  pub silent : w.disconnected ≡ v.disconnected
  pub counted : w.counter ≤ v.counter + 1
