-- ===== src/Ini/Maps.antt =====
-- Lookups after an assignment.
use bre_utils.Prelude.{
  find_key, put, find_key-put, ◌≡◌, refl, ap, sym, ◌∙◌, Bool, true, false, ◌&&◌, Option, none, some,
  Bytes, equal, equal_iff, if◌then◌else◌, Bool-cases, inl, inr,
}
use bre_utils.Ini.{
  IniConfigLoad, SectionInfo, section, section_value, get_value, store, value_in, or_empty,
  or_no_data,
}

value_in-section :
    (o : Option SectionInfo) (key : Bytes) → value_in o key ≡ section_value (or_no_data o) key
unfolding section_value find_key
value_in-section none key = refl
value_in-section (some info) key = refl

or_empty-test :
    (b : Bool) (value : Bytes) (o : Option Bytes)
    → or_empty (if b then some value else o) ≡ (if b then value else or_empty o)
or_empty-test true value o = refl
or_empty-test false value o = refl

stored_section :
    (config : IniConfigLoad) (name key value other : Bytes)
    → section_value
        (record { section_datas = put (section config name).section_datas key value })
        other
      ≡ (if equal key other then value else get_value config name other)
unfolding section_value section get_value
stored_section config name key value other =
    ap or_empty (find_key-put (section config name).section_datas key value other)
    ∙ or_empty-test (equal key other) value (find_key (section config name).section_datas other)
    ∙ ap (λ v. if equal key other then value else v)
        (sym (value_in-section (find_key config.config_map name) other))

-- The assignment changes the value of just its key in just its section.
pub get_value-store :
    (config : IniConfigLoad) (name key value other_name other : Bytes)
    → get_value (store config name key value) other_name other ≡ (
        if equal name other_name && equal key other
        then value
        else get_value config other_name other)
unfolding get_value store
get_value-store config name key value other_name other =
    let put_section =
      find_key-put config.config_map name
        (record { section_datas = put (section config name).section_datas key value }) other_name in
    elim (Bool-cases (equal name other_name)) [
      | inr different ↦ rw (put_section, different)
      | inl same ↦
          rw (put_section, same)
            (stored_section config name key value other
              ∙ ap (λ n. if equal key other then value else get_value config n other)
                  ((equal_iff name other_name).0 same))
    ]
