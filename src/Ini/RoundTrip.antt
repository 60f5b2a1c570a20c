-- ===== src/Ini/RoundTrip.antt =====
-- A configuration written as a file in the usual way, and loaded.
use bre_utils.Prelude.{
  ℕ, ◌≡◌, ◌≢◌, refl, ap, ap₂, ◌∙◌, Bool, false, some, List, [], ◌∷◌, ◌++◌, Bytes, All, All-append,
  ◌==◌, arith,
}
use bre_utils.Prelude.{starts}
use bre_utils.Ini.{
  IniConfigLoad, header, entry, get_value, inst, is_blank, is_nil, trim_start, trim_end, trim,
  remove_comment, split_equal, but_last, back_or, read_trimmed, read_line, lines_of, entry_of,
}
use bre_utils.Ini.Load.{Assignment, assigned, read_lines, last_value, file_assigned, get_value-inst}

-- A section: its name, and its keys with their values.
pub record Section : Type 0 where
  pub title : Bytes
  pub entries : List (Bytes × Bytes)

unfoldable pub render_entries : List (Bytes × Bytes) → Bytes → Bytes
render_entries [] rest = rest
render_entries ((key, value) ∷ entries) rest =
    (key ++ b'=' ∷ value) ++ b'\n' ∷ render_entries entries rest

unfoldable pub render : List Section → Bytes
unfolding render_entries
render [] = []
render (s ∷ sections) =
    (b'[' ∷ s.title ++ b']' ∷ []) ++ b'\n' ∷ render_entries s.entries (render sections)

-- The assignments that a configuration stands for.
unfoldable pub of_entries : Bytes → List (Bytes × Bytes) → List Assignment → List Assignment
of_entries title [] rest = rest
of_entries title ((key, value) ∷ entries) rest =
    record { name = title; key = key; value = value } ∷ of_entries title entries rest

unfoldable pub of_sections : List Section → List Assignment
unfolding of_entries
of_sections [] = []
of_sections (s ∷ sections) = of_entries s.title s.entries (of_sections sections)

-- A character of a line, and not of a comment.
abbrev pub IsPlain : ℕ → Type 0
IsPlain c = (c ≢ b'\n') × (c ≢ b';')

-- No blanks at its ends.
abbrev pub IsTrimmed : Bytes → Type 0
IsTrimmed s = (starts is_blank s ≡ false) × (trim_end s ≡ s)

abbrev pub IsKey : Bytes → Type 0
IsKey key =
    All IsPlain key
    × All (λ c. c ≢ b'=') key
    × (starts (λ c. c == b'[') key ≡ false)
    × IsTrimmed key

abbrev pub IsValue : Bytes → Type 0
IsValue value = All IsPlain value × IsTrimmed value

abbrev pub IsEntry : Bytes × Bytes → Type 0
IsEntry e = IsKey e.0 × IsValue e.1

abbrev pub IsSection : Section → Type 0
IsSection s = All IsPlain s.title × All IsEntry s.entries

remove_comment-plain : (s : Bytes) → All IsPlain s → remove_comment s ≡ s
unfolding remove_comment
remove_comment-plain [] h = refl
remove_comment-plain (c ∷ cs) h = ground (arith, remove_comment-plain cs h.1)

lines_of-line : (s rest : Bytes) → All IsPlain s → lines_of (s ++ b'\n' ∷ rest) ≡ s ∷ lines_of rest
unfolding lines_of
lines_of-line [] rest h = refl
lines_of-line (c ∷ cs) rest h = ground (arith, lines_of-line cs rest h.1)

trim_start-trimmed : (s : Bytes) → starts is_blank s ≡ false → trim_start s ≡ s
unfolding trim_start
trim_start-trimmed [] h = refl
trim_start-trimmed (c ∷ cs) h = rw h

is_nil-append : (s : Bytes) (c : ℕ) (rest : Bytes) → is_nil (s ++ c ∷ rest) ≡ false
is_nil-append [] c rest = refl
is_nil-append (d ∷ s) c rest = refl

-- Blanks before a character that is none are kept.
trim_end-append :
    (s : Bytes) (c : ℕ) (rest : Bytes)
    → is_blank c ≡ false
    → trim_end rest ≡ rest
    → trim_end (s ++ c ∷ rest) ≡ s ++ c ∷ rest
unfolding trim_end
trim_end-append [] c rest h k = rw (h, k)
trim_end-append (d ∷ s) c rest h k =
    rw (trim_end-append s c rest h k, is_nil-append s c rest) (ground arith)

split_equal-append :
    (key value : Bytes)
    → All (λ c. c ≢ b'=') key
    → split_equal (key ++ b'=' ∷ value) ≡ some (key, value)
unfolding split_equal
split_equal-append [] value h = refl
split_equal-append (c ∷ key) value h = ground (arith, split_equal-append key value h.1)

but_last-append : (s : Bytes) (c : ℕ) → but_last (s ++ c ∷ []) ≡ s
unfolding but_last
but_last-append [] c = refl
but_last-append (d ∷ []) c = refl
but_last-append (d ∷ e ∷ s) c = ap (◌∷◌ d) (but_last-append (e ∷ s) c)

back_or-append : (d : ℕ) (s : Bytes) (c : ℕ) → back_or d (s ++ c ∷ []) ≡ c
unfolding back_or
back_or-append d [] c = refl
back_or-append d (e ∷ s) c = back_or-append e s c

starts-append :
    (test : ℕ → Bool) (s : Bytes) (c : ℕ) (rest : Bytes)
    → starts test s ≡ false
    → test c ≡ false
    → starts test (s ++ c ∷ rest) ≡ false
starts-append test [] c rest h k = k
starts-append test (d ∷ s) c rest h k = h

trim-trimmed : (s : Bytes) → IsTrimmed s → trim s ≡ s
unfolding trim
trim-trimmed s h = ap trim_end (trim_start-trimmed s h.0) ∙ h.1

read_trimmed-entry :
    (key value : Bytes)
    → starts (λ c. c == b'[') key ≡ false
    → read_trimmed (key ++ b'=' ∷ value) ≡ entry_of (split_equal (key ++ b'=' ∷ value))
unfolding read_trimmed
read_trimmed-entry [] value h = refl
read_trimmed-entry (c ∷ key) value h = rw h

read_line-entry : (e : Bytes × Bytes) → IsEntry e → read_line (e.0 ++ b'=' ∷ e.1) ≡ entry e.0 e.1
unfolding read_line is_blank
read_line-entry (key, value)
      ((plain, no_equal, no_bracket, trimmed), (value_plain, value_trimmed)) =
    let text = key ++ b'=' ∷ value in
    ap (λ s. read_trimmed (trim s))
      (remove_comment-plain text
        (All-append IsPlain key (b'=' ∷ value) plain ((omega arith, omega arith), value_plain)))
    ∙ ap read_trimmed (
        trim-trimmed text (
          starts-append is_blank key b'=' value trimmed.0 refl,
          trim_end-append key b'=' value refl value_trimmed.1,
        ))
    ∙ read_trimmed-entry key value no_bracket
    ∙ ap entry_of (split_equal-append key value no_equal)
    ∙ ap₂ entry (trim-trimmed key trimmed) (trim-trimmed value value_trimmed)

read_line-header :
    (title : Bytes) → All IsPlain title → read_line (b'[' ∷ title ++ b']' ∷ []) ≡ header title
unfolding read_line is_blank read_trimmed trim_end
read_line-header title plain =
    let text = b'[' ∷ title ++ b']' ∷ [] in
    ap (λ s. read_trimmed (trim s))
      (remove_comment-plain text (
        All-append IsPlain (b'[' ∷ title) (b']' ∷ []) ((omega arith, omega arith), plain)
          ((omega arith, omega arith), tt)))
    ∙ ap read_trimmed (trim-trimmed text (refl, trim_end-append (b'[' ∷ title) b']' [] refl refl))
    ∙ rw (back_or-append b'[' title b']', but_last-append title b']')

assigned-render_entries :
    (title : Bytes) (entries : List (Bytes × Bytes)) (rest : Bytes)
    → All IsEntry entries
    → assigned title (read_lines (lines_of (render_entries entries rest)))
      ≡ of_entries title entries (assigned title (read_lines (lines_of rest)))
unfolding render_entries of_entries assigned read_lines
assigned-render_entries title [] rest h = refl
assigned-render_entries title ((key, value) ∷ entries) rest (h, more) =
    let plain = All-append IsPlain key (b'=' ∷ value) h.0.0 ((omega arith, omega arith), h.1.0) in
    rw
      (
        lines_of-line (key ++ b'=' ∷ value) (render_entries entries rest) plain,
        read_line-entry (key, value) h,
      )
      (ap (◌∷◌ (record { name = title; key = key; value = value }))
        (assigned-render_entries title entries rest more))

assigned-render :
    (current : Bytes) (sections : List Section)
    → All IsSection sections
    → assigned current (read_lines (lines_of (render sections))) ≡ of_sections sections
unfolding render of_sections assigned read_lines lines_of
assigned-render current [] h = refl
assigned-render current (s ∷ sections) ((plain, entries), more) =
    let all_plain =
      All-append IsPlain (b'[' ∷ s.title) (b']' ∷ []) ((omega arith, omega arith), plain)
        ((omega arith, omega arith), tt) in
    let next = render_entries s.entries (render sections) in
    ap (λ ls. assigned current (read_lines ls))
      (lines_of-line (b'[' ∷ s.title ++ b']' ∷ []) next all_plain)
    ∙ ap (λ l. assigned current (l ∷ read_lines (lines_of next))) (read_line-header s.title plain)
    ∙ assigned-render_entries s.title s.entries (render sections) entries
    ∙ ap (of_entries s.title s.entries) (assigned-render s.title sections more)

-- A configuration whose names, keys and values have no line ends and no `;`, whose keys and values
-- have no blanks at their ends, and whose keys have no `=` and no `[` in front, is written one header
-- and one `key=value` a line. After `Inst` loads that file, `GetValue` answers the last value that the
-- configuration has for the key in the section, and what it answered before if there is none.
pub get_value-render :
    (sections : List Section) (config : IniConfigLoad) (name key : Bytes)
    → All IsSection sections
    → get_value (inst (some (render sections)) config) name key
      ≡ last_value (of_sections sections) name key (get_value config name key)
unfolding file_assigned
get_value-render sections config name key h =
    get_value-inst (some (render sections)) config name key
    ∙ ap (λ l. last_value l name key (get_value config name key)) (assigned-render [] sections h)
