-- ===== src/Filter/Tests.antt =====
-- Runs of the filters.
use kubemonitor.Common.{
  ◌≡◌, refl, true, false, not, ◌&&◌, none, some, List, [], ◌∷◌, Text, codes, one_of,
}
use kubemonitor.Filter.{
  Glob, IncludeExcludeFilter, compile, new_include_exclude_filter_defaults, include_exclude_match,
  has_meta,
}
use kubemonitor.Filter.Sets.{include_exclude_lem}

-- A glob library that knows no pattern.
abbrev no_glob : Glob
no_glob pattern = none

abbrev names : List Text
names = codes "cpu" ∷ codes "mem" ∷ []

-- `net*` goes to the glob library.
glob_called : compile no_glob (codes "net*" ∷ names) ≡ none
unfolding compile has_meta
glob_called = refl

include_exclude_lem_example :
    (f : IncludeExcludeFilter) × (new_include_exclude_filter_defaults no_glob [] names true false
      ≡ some f)
    × ((s : Text) → include_exclude_match f s ≡ (true && not (one_of names s)))
unfolding has_meta
include_exclude_lem_example = include_exclude_lem no_glob [] names true false refl refl
