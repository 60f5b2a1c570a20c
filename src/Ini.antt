-- ===== src/Ini.antt =====
-- breUtils/configLoad/iniConfigLoad.hpp: `iniSectionInfo` and `IniConfigLoad`. A `std::map` that is
-- only looked up and assigned to is an association list. A file is its text, or `none` if it does
-- not open. The copies of the source are copies of a value here.
pub mod Maps
pub mod Load
pub mod RoundTrip
mod Tests
use bre_utils.Prelude.{
  find_key, put, ℕ, Bool, true, false, ◌&&◌, ◌||◌, Option, none, some, List, [], ◌∷◌, ◌++◌, Bytes,
  ◌==◌, if◌then◌else◌, equal,
}

pub record SectionInfo : Type 0 where
  pub section_datas : List (Bytes × Bytes)

pub record IniConfigLoad : Type 0 where
  pub config_map : List (Bytes × SectionInfo)

abbrev pub no_sections : IniConfigLoad
no_sections = record { config_map = [] }

abbrev pub no_data : SectionInfo
no_data = record { section_datas = [] }

abbrev pub or_empty : Option Bytes → Bytes
or_empty none = []
or_empty (some value) = value

-- `iniSectionInfo::GetValue`, and its `operator[]`.
unfoldable pub section_value : SectionInfo → Bytes → Bytes
section_value info key = or_empty (find_key info.section_datas key)

abbrev pub or_no_data : Option SectionInfo → SectionInfo
or_no_data none = no_data
or_no_data (some info) = info

-- `IniConfigLoad::operator[]`
unfoldable pub section : IniConfigLoad → Bytes → SectionInfo
section config name = or_no_data (find_key config.config_map name)

abbrev pub value_in : Option SectionInfo → Bytes → Bytes
value_in none key = []
value_in (some info) key = section_value info key

-- `IniConfigLoad::GetValue`
unfoldable pub get_value : IniConfigLoad → Bytes → Bytes → Bytes
get_value config name key = value_in (find_key config.config_map name) key

-- `_config_map[current_section]._section_datas[key] = value`
unfoldable pub store : IniConfigLoad → Bytes → Bytes → Bytes → IniConfigLoad
store config name key value =
    let datas = put (section config name).section_datas key value in
    record { config_map = put config.config_map name (record { section_datas = datas }) }

-- One of `" \t\n\r"`.
unfoldable pub is_blank : ℕ → Bool
is_blank c = c == b' ' || (c == b'\t' || (c == b'\n' || c == b'\r'))

abbrev pub is_nil : Bytes → Bool
is_nil [] = true
is_nil (c ∷ cs) = false

-- `s.erase(0, s.find_first_not_of(...))`: with nothing but blanks it erases all.
unfoldable pub trim_start : Bytes → Bytes
unfolding is_blank
trim_start [] = []
trim_start (c ∷ cs) = if is_blank c then trim_start cs else c ∷ cs

-- `s.erase(s.find_last_not_of(...) + 1)`
unfoldable pub trim_end : Bytes → Bytes
unfolding is_blank
trim_end [] = []
trim_end (c ∷ cs) = let rest = trim_end cs in if is_blank c && is_nil rest then [] else c ∷ rest

unfoldable pub trim : Bytes → Bytes
trim s = trim_end (trim_start s)

-- What stands before a `;`.
unfoldable pub remove_comment : Bytes → Bytes
remove_comment [] = []
remove_comment (c ∷ cs) = if c == b';' then [] else c ∷ remove_comment cs

abbrev pub onto_key : ℕ → Option (Bytes × Bytes) → Option (Bytes × Bytes)
onto_key c none = none
onto_key c (some (key, value)) = some (c ∷ key, value)

-- The line in front of the first `=` and behind it.
unfoldable pub split_equal : Bytes → Option (Bytes × Bytes)
split_equal [] = none
split_equal (c ∷ cs) = if c == b'=' then some ([], cs) else onto_key c (split_equal cs)

-- All but the last character; the last character, 0 if there is none.
unfoldable pub but_last : Bytes → Bytes
but_last [] = []
but_last (c ∷ []) = []
but_last (c ∷ d ∷ cs) = c ∷ but_last (d ∷ cs)

unfoldable pub back_or : ℕ → Bytes → ℕ
back_or c [] = c
back_or c (d ∷ cs) = back_or d cs

-- What a line says.
pub data Line : Type 0 where
  nothing : Line
  header : Bytes → Line
  entry : Bytes → Bytes → Line

abbrev pub entry_of : Option (Bytes × Bytes) → Line
entry_of none = nothing
entry_of (some (key, value)) = entry (trim key) (trim value)

-- The line with no comment and no blanks at its ends: `substr(1, size() - 2)` of a header.
unfoldable pub read_trimmed : Bytes → Line
read_trimmed [] = nothing
read_trimmed (c ∷ cs) =
    if c == b'[' && back_or c cs == b']'
    then header (but_last cs)
    else entry_of (split_equal (c ∷ cs))

unfoldable pub read_line : Bytes → Line
read_line line = read_trimmed (trim (remove_comment line))

-- The configuration and the current section after a line.
unfoldable pub apply_line : IniConfigLoad → Bytes → Line → IniConfigLoad × Bytes
apply_line config current nothing = (config, current)
apply_line config current (header name) = (config, name)
apply_line config current (entry key value) = (store config current key value, current)

unfoldable pub load_lines : IniConfigLoad → Bytes → List Bytes → IniConfigLoad
load_lines config current [] = config
load_lines config current (line ∷ lines) =
    let (config', current') = apply_line config current (read_line line) in
    load_lines config' current' lines

abbrev pub onto_line : ℕ → List Bytes → List Bytes
onto_line c [] = (c ∷ []) ∷ []
onto_line c (line ∷ lines) = (c ∷ line) ∷ lines

-- The lines that `std::getline` reads: the last one may have no end.
unfoldable pub lines_of : Bytes → List Bytes
lines_of [] = []
lines_of (c ∷ cs) = if c == b'\n' then [] ∷ lines_of cs else onto_line c (lines_of cs)

-- `loadConfig`: whether the file opened, and the configuration, into which it was read.
unfoldable pub load_config : Option Bytes → IniConfigLoad → Bool × IniConfigLoad
load_config none config = (false, config)
load_config (some text) config = (true, load_lines config [] (lines_of text))

-- `Inst`, on the static instance. The flag is a local variable, so that every call loads.
unfoldable pub inst : Option Bytes → IniConfigLoad → IniConfigLoad
inst file instance_ = (load_config file instance_).1
