-- ===== src/Ini/Tests.antt =====
-- Runs of `IniConfigLoad`, and the theorems at inputs that meet their hypotheses.
use bre_utils.Prelude.{
  find_key, put, ◌≡◌, refl, some, [], ◌∷◌, Bytes, All, codes, equal, arith, List,
}
use bre_utils.Ini.{
  no_sections, get_value, inst, section, store, load_config, load_lines, read_line, apply_line,
  lines_of, remove_comment, trim, trim_start, trim_end, read_trimmed, split_equal, section_value,
  back_or, but_last, is_blank,
}
use bre_utils.Ini.Load.{last_value, file_assigned, get_value-inst}
use bre_utils.Ini.RoundTrip.{Section, IsSection, render, of_sections, get_value-render}

abbrev server : List Section
server =
    record { title = codes "s"; entries = (codes "p", codes "8") ∷ (codes "h", []) ∷ [] }
    ∷ record { title = codes "s"; entries = (codes "p", codes "7 =") ∷ [] }
    ∷ []

abbrev file : Bytes
file = codes "top = 1\n\t[a] ; first\n x = 1 2 \nno value\n[b\nx=2\n[]\nx=3"

get_values :
    (get_value (inst (some file) no_sections) [] (codes "top") ≡ codes "1")
    × (get_value (inst (some file) no_sections) (codes "a") (codes "x") ≡ codes "2")
    × (get_value (inst (some file) no_sections) [] (codes "x") ≡ codes "3")
    × (get_value (inst (some file) no_sections) (codes "b") (codes "x") ≡ [])
unfolding get_value inst load_config load_lines apply_line store section section_value find_key put
    equal read_line lines_of remove_comment trim trim_start trim_end read_trimmed split_equal
    back_or but_last
get_values = (refl, refl, refl, refl)

get_value-inst_example :
    get_value (inst (some file) no_sections) (codes "a") (codes "x")
    ≡ last_value
        (file_assigned (some file))
        (codes "a")
        (codes "x")
        (get_value no_sections (codes "a") (codes "x"))
get_value-inst_example = get_value-inst (some file) no_sections (codes "a") (codes "x")

server-IsSection : All IsSection server
unfolding is_blank trim_end
server-IsSection = ground arith

get_value-render_example :
    get_value (inst (some (render server)) no_sections) (codes "s") (codes "p")
    ≡ last_value
        (of_sections server)
        (codes "s")
        (codes "p")
        (get_value no_sections (codes "s") (codes "p"))
get_value-render_example =
    get_value-render server no_sections (codes "s") (codes "p") server-IsSection
