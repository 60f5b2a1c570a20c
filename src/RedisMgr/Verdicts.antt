-- ===== src/RedisMgr/Verdicts.antt =====
-- What each command of `RedisMgr` makes of a reply, as a table; `none` is what C++ leaves undefined.
use bre_utils.Prelude.{
  ℤ, pos, zero, suc, Bool, true, false, Option, none, some, [], ◌||◌, Bytes, codes, equal,
}
use bre_utils.RedisMgr.{is_string, is_integer, is_nil, is_status, Reply, c_str}
use bre_utils.RedisMgr.Handlers.{Fetched}

-- A text that was fetched; a null pointer is undefined.
abbrev pub fetched_text : Option Bytes → Option Fetched
fetched_text none = none
fetched_text (some s) = some (true, some (c_str s))

abbrev pub is_ok : Option Bytes → Option Bool
is_ok none = none
is_ok (some s) = some (equal (c_str s) (codes "OK") || equal (c_str s) (codes "ok"))

abbrev pub value_text : Option Bytes → Option Bytes
value_text none = none
value_text (some s) = some (c_str s)

abbrev pub positive : ℤ → Bool
positive (pos (suc n)) = true
positive _ = false

abbrev pub nonzero : ℤ → Bool
nonzero (pos zero) = false
nonzero _ = true

-- GET: a string, and nothing else, is fetched.
unfoldable pub string_verdict : Reply → Option Fetched
string_verdict reply = elim reply.kind [
  | is_string ↦ fetched_text reply.str
  | _ ↦ some (false, none)
]

-- SET: a status that says OK.
unfoldable pub status_verdict : Reply → Option Bool
status_verdict reply = elim reply.kind [ is_status ↦ is_ok reply.str | _ ↦ some false ]

-- LPUSH, RPUSH and HDEL: a positive number.
unfoldable pub positive_verdict : Reply → Option Bool
positive_verdict reply = elim reply.kind [
  | is_integer ↦ some (positive reply.integer)
  | _ ↦ some false
]

-- LPOP and RPOP: all but NIL is fetched, an error's text too.
unfoldable pub element_verdict : Reply → Option Fetched
element_verdict reply = elim reply.kind [ is_nil ↦ some (false, none) | _ ↦ fetched_text reply.str ]

-- HSET and DEL: any number, 0 too.
unfoldable pub integer_verdict : Reply → Option Bool
integer_verdict reply = elim reply.kind [ is_integer ↦ some true | _ ↦ some false ]

-- HGET: as LPOP, with the empty text for NIL.
unfoldable pub value_verdict : Reply → Option Bytes
value_verdict reply = elim reply.kind [ is_nil ↦ some [] | _ ↦ value_text reply.str ]

-- EXISTS: a number but 0.
unfoldable pub found_verdict : Reply → Option Bool
found_verdict reply = elim reply.kind [ is_integer ↦ some (nonzero reply.integer) | _ ↦ some false ]
