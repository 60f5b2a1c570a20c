-- ===== src/Ini/Load.antt =====
-- What a loaded text answers, against the list of the assignments that its lines make.
use bre_utils.Prelude.{
  ◌≡◌, refl, ap, ◌∙◌, ◌&&◌, Option, none, some, List, [], ◌∷◌, Bytes, equal, if◌then◌else◌,
}
use bre_utils.Ini.{
  IniConfigLoad, Line, nothing, header, entry, get_value, store, read_line, apply_line, load_lines,
  lines_of, load_config, inst,
}
use bre_utils.Ini.Maps.{get_value-store}

-- A value, under the section and the key that it is given to.
pub record Assignment : Type 0 where
  pub name : Bytes
  pub key : Bytes
  pub value : Bytes

-- What the lines of a text assign, in order, each under the last header before it.
unfoldable pub assigned : Bytes → List Line → List Assignment
assigned current [] = []
assigned current (nothing ∷ lines) = assigned current lines
assigned current (header name ∷ lines) = assigned name lines
assigned current (entry key value ∷ lines) =
    record { name = current; key = key; value = value } ∷ assigned current lines

unfoldable pub read_lines : List Bytes → List Line
read_lines [] = []
read_lines (line ∷ lines) = read_line line ∷ read_lines lines

-- The last value given to the key, `before` if there is none.
unfoldable pub last_value : List Assignment → Bytes → Bytes → Bytes → Bytes
last_value [] name key before = before
last_value (a ∷ more) name key before =
    last_value more name key (if equal a.name name && equal a.key key then a.value else before)

get_value-load_lines :
    (lines : List Bytes) (config : IniConfigLoad) (current name key : Bytes)
    → get_value (load_lines config current lines) name key
      ≡ last_value (assigned current (read_lines lines)) name key (get_value config name key)
unfolding load_lines apply_line read_lines assigned last_value
get_value-load_lines [] config current name key = refl
get_value-load_lines (line ∷ lines) config current name key =
    go (read_line line) λ config' current'. get_value-load_lines lines config' current' name key
  where
    later : IniConfigLoad → Bytes → Bytes
    later config' current' =
        last_value (assigned current' (read_lines lines)) name key (get_value config' name key)

    go :
        (l : Line)
        → ((config' : IniConfigLoad) (current' : Bytes)
            → get_value (load_lines config' current' lines) name key ≡ later config' current')
        → get_value
            (load_lines (apply_line config current l).0 (apply_line config current l).1 lines)
            name
            key
          ≡ last_value
              (assigned current (l ∷ read_lines lines))
              name
              key
              (get_value config name key)
    go nothing rest = rest config current
    go (header next) rest = rest config next
    go (entry k v) rest =
        rest (store config current k v) current
        ∙ ap (last_value (assigned current (read_lines lines)) name key)
            (get_value-store config current k v name key)

unfoldable pub file_assigned : Option Bytes → List Assignment
file_assigned none = []
file_assigned (some text) = assigned [] (read_lines (lines_of text))

-- After a call of `Inst` with a file that opens, whatever the calls before it loaded, `GetValue`
-- answers the last value that a line of the file gives to the key under the section's header, and
-- what it answered before if there is none; if the file does not open, what it answered before.
pub get_value-inst :
    (file : Option Bytes) (config : IniConfigLoad) (name key : Bytes)
    → get_value (inst file config) name key
      ≡ last_value (file_assigned file) name key (get_value config name key)
unfolding inst load_config file_assigned last_value
get_value-inst none config name key = refl
get_value-inst (some text) config name key = get_value-load_lines (lines_of text) config [] name key
