-- ===== src/Filter/Sets.antt =====
-- Filters whose names hold no magic characters are sets.
use kubemonitor.Common.{
  ◌≡◌, refl, ◌∙◌, Bool, false, not, ◌&&◌, ◌||◌, Option, none, some, List, [], ◌∷◌, arith, ◌==◌,
  if◌then◌else◌, suc_test, length, any, Text, text_eq_iff, one_of, Map, lookup, insert, is_some,
  lookup-insert,
}
use kubemonitor.Filter.{
  Filter, Glob, IncludeExcludeFilter, matches, has_meta, fill, compile_filter_no_glob, compile,
  matches_or, new_include_exclude_filter_defaults, include_exclude_match,
}

lookup-fill :
    (s : Text) (filters : List Text) (out : Map (Unit {0}))
    → is_some (lookup s (fill filters out)) ≡ (is_some (lookup s out) || one_of filters s)
unfolding fill
lookup-fill s [] out = ground arith
lookup-fill s (f ∷ filters) out =
    lookup-fill s filters (insert f tt out)
    ∙ ground (arith, lookup-insert f s tt out, text_eq_iff f s, text_eq_iff s f)

no_glob_matches :
    (s : Text) (f : Text) (filters : List Text)
    → matches (compile_filter_no_glob (f ∷ filters)) s ≡ one_of (f ∷ filters) s
unfolding compile_filter_no_glob matches lookup
no_glob_matches s f [] = ground (arith, text_eq_iff f s, text_eq_iff s f)
no_glob_matches s f (g ∷ filters) = lookup-fill s (f ∷ g ∷ filters) []

-- Compiled names without `*`, `?` and `[`, whatever the glob library does: a filter that matches
-- exactly these names, and nil where there are none.
compile_lem :
    (glob : Glob) (filters : List Text)
    → any has_meta filters ≡ false
    → (f : Option Filter) × (compile glob filters ≡ some f)
      × ((default : Bool) (s : Text)
          → matches_or f default s ≡ (if length filters == 0 then default else one_of filters s))
unfolding compile
compile_lem glob [] h = (none, refl, λ default s. refl)
compile_lem glob (f ∷ []) h =
    (some (compile_filter_no_glob (f ∷ [])), ground arith, λ default s. no_glob_matches s f [])
compile_lem glob (f ∷ g ∷ filters) h = (
  some (compile_filter_no_glob (f ∷ g ∷ filters)),
  rw h,
  λ default s. no_glob_matches s f (g ∷ filters) ∙ rw (suc_test (length (g ∷ filters))),
)

-- An include-exclude filter of names without `*`, `?` and `[` can always be built; it takes the
-- names that are included, or all if the include list is empty and the include default says so, and
-- that are not excluded, or none if the exclude list is empty and the exclude default says so.
pub include_exclude_lem :
    (glob : Glob) (include exclude : List Text) (include_default exclude_default : Bool)
    → any has_meta include ≡ false
    → any has_meta exclude ≡ false
    → (f : IncludeExcludeFilter) × (new_include_exclude_filter_defaults glob include exclude
          include_default exclude_default
        ≡ some f)
      × ((s : Text)
          → include_exclude_match f s ≡ (
              (if length include == 0 then include_default else one_of include s)
              && not (if length exclude == 0 then exclude_default else one_of exclude s)))
unfolding new_include_exclude_filter_defaults include_exclude_match
include_exclude_lem glob include exclude include_default exclude_default hi he =
    let (i, made_i, is_i) = compile_lem glob include hi in
    let (e, made_e, is_e) = compile_lem glob exclude he in
    (
      record {
        include = i;
        exclude = e;
        include_default = include_default;
        exclude_default = exclude_default;
      },
      rw (made_i, new_include_exclude_filter_defaults) (rw made_e),
      λ s. rw (is_i include_default s, is_e exclude_default s) (ground arith),
    )
