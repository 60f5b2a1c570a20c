-- ===== src/Buffer/Until.antt =====
-- `RetrieveUntil`: up to and with the first place where the delimiter stands.
use bre_utils.Prelude.{
  ℕ, zero, suc, ◌+◌, ◌≤◌, ◌<◌, ◌≡◌, ap, sym, subst, take-append_length, ◌∙◌, true, false,
  Bool-cases, inl, inr, none, some, Option-cases, [], ◌∷◌, ◌++◌, Bytes, length, take, drop,
  append_assoc, length-append, length-take, take-append-drop, drop-drop, arith, ok,
}
use bre_utils.Buffer.{Buffer, add_size, retrieve, retrieve_until}
use bre_utils.Buffer.Inv.{IsValid, contents, length-contents, peek_all}
use bre_utils.Buffer.Read.{retrieve_refines}
use bre_utils.Prelude.{starts_with, starts_with_lem, find?}

-- The pattern stands at `i`, and at no place before it.
pub record IsFirst (p text : Bytes) (i : ℕ) : Type 0 where
  pub here : drop i text ≡ p ++ drop (length p) (drop i text)
  pub inside : i + length p ≤ length text
  pub earlier : (j : ℕ) → j < i → starts_with p (drop j text) ≡ false

IsFirst-zero : (p text : Bytes) → starts_with p text ≡ true → IsFirst p text 0
IsFirst-zero p text h =
    let e = starts_with_lem p text h in
    record {
      here = e;
      inside = omega (arith, ap length e, length-append p (drop (length p) text));
      earlier = λ j k. absurd (omega arith);
    }

IsFirst-suc :
    (p : Bytes) (c : ℕ) (cs : Bytes) (i : ℕ)
    → starts_with p (c ∷ cs) ≡ false
    → IsFirst p cs i
    → IsFirst p (c ∷ cs) (suc i)
IsFirst-suc p c cs i h f = record {
  here = f.here;
  inside = omega (arith, f.inside);
  earlier = before;
}
  where
    before : (j : ℕ) → j < suc i → starts_with p (drop j (c ∷ cs)) ≡ false
    before zero k = h
    before (suc j) k = f.earlier j (omega arith)

IsFirst-at : (p text : Bytes) {i j : ℕ} → i ≡ j → IsFirst p text i → IsFirst p text j
IsFirst-at p text e f = subst (IsFirst p text) e f

pub find?-IsFirst : (p text : Bytes) (i : ℕ) → find? p text ≡ some i → IsFirst p text i
unfolding find?
find?-IsFirst p [] i h = elim (Bool-cases (starts_with p [])) [
  | inl e ↦ IsFirst-at p [] {i = 0} (ground arith) (IsFirst-zero p [] e)
  | inr e ↦ absurd (ground arith)
]
find?-IsFirst p (c ∷ cs) i h = elim (Bool-cases (starts_with p (c ∷ cs))) [
  | inl e ↦ IsFirst-at p (c ∷ cs) {i = 0} (ground arith) (IsFirst-zero p (c ∷ cs) e)
  | inr e ↦ elim (Option-cases (find? p cs)) [
    | inl n ↦ absurd (ground arith)
    | inr (k, s) ↦
        IsFirst-at p (c ∷ cs) {i = suc k} (ground arith)
          (IsFirst-suc p c cs k e (find?-IsFirst p cs k s))
  ]
]

pub find?-none :
    (p text : Bytes) → find? p text ≡ none → (j : ℕ) → starts_with p (drop j text) ≡ false
unfolding find?
find?-none p [] h zero = ground arith
find?-none p [] h (suc j) = ground arith
find?-none p (c ∷ cs) h zero = ground arith
find?-none p (c ∷ cs) h (suc j) = find?-none p cs (ground arith) j

-- The text up to and with the first place of the pattern.
split_at :
    (p text : Bytes) (i : ℕ)
    → IsFirst p text i
    → (take (i + length p) text ≡ take i text ++ p)
      × (text ≡ (take i text ++ p) ++ drop (i + length p) text)
split_at p text i f =
    let whole : text ≡ (take i text ++ p) ++ drop (length p) (drop i text) =
      sym (take-append-drop i text)
      ∙ ap (◌++◌ (take i text)) f.here
      ∙ sym (append_assoc (take i text) p (drop (length p) (drop i text))) in
    let size : i + length p ≡ length (take i text ++ p) =
      omega (arith, length-append (take i text) p, length-take i text, f.inside) in
    (
      ap (take (i + length p)) whole
          ∙ take-append_length (take i text ++ p) (drop (length p) (drop i text)) _ size,
      whole ∙ ap (◌++◌ (take i text ++ p)) (drop-drop text i (length p)),
    )

-- A `RetrieveUntil` that finds its delimiter is a `Retrieve` up to the delimiter's end.
pub retrieve_until_found :
    {b : Buffer} (end : Bytes) (i : ℕ)
    → IsValid b
    → find? end (contents b) ≡ some i
    → (b' : Buffer) × (retrieve_until b end ≡ ok (take (i + length end) (contents b), b'))
      × IsValid b'
      × (contents b' ≡ drop (i + length end) (contents b))
      × (b'.write_pos ≡ b.write_pos)
unfolding retrieve_until
retrieve_until_found {b} end i v h =
    let f = find?-IsFirst end (contents b) i h in
    let (b', done, valid, rest, kept) = retrieve_refines (i + length end) v f.inside in
    let index : add_size i (length end) ≡ i + length end =
      omega (arith, f.inside, length-contents v) in
    (b', rw (retrieve_until, peek_all v, h) (ap (retrieve b) index ∙ done), valid, rest, kept)

-- `RetrieveUntil(end)` on a valid buffer in whose unread bytes `std::string::find` finds `end` at `i`:
-- that is the first place where `end` stands, the call returns the unread bytes up to `i` with the
-- delimiter behind them, and the buffer stays valid and keeps exactly what follows.
retrieve_until_refines :
    {b : Buffer} (end : Bytes) (i : ℕ)
    → IsValid b
    → find? end (contents b) ≡ some i
    → (b' : Buffer) × (retrieve_until b end ≡ ok (take i (contents b) ++ end, b'))
      × IsValid b'
      × (contents b ≡ (take i (contents b) ++ end) ++ contents b')
      × IsFirst end (contents b) i
retrieve_until_refines {b} end i v h =
    let f = find?-IsFirst end (contents b) i h in
    let s = split_at end (contents b) i f in
    let (b', done, valid, rest, _) = retrieve_until_found end i v h in
    (
      b',
      done ∙ ap (λ out. ok (out, b')) s.0,
      valid,
      s.1 ∙ ap (◌++◌ (take i (contents b) ++ end)) (sym rest),
      f,
    )

-- `RetrieveUntil(end)` on a valid buffer with no `end` in its unread bytes returns the empty text and
-- leaves the buffer alone.
pub retrieve_until-none :
    {b : Buffer} (end : Bytes)
    → IsValid b
    → find? end (contents b) ≡ none
    → retrieve_until b end ≡ ok ([], b)
unfolding retrieve_until
retrieve_until-none {b} end v h = rw (retrieve_until, peek_all v, h)
