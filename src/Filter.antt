-- ===== src/Filter.antt =====
-- pkg/filter/filter.go: filters on names. The package gobwas/glob is a parameter.
pub mod Sets
pub mod Tests
use kubemonitor.Common.{
  ℕ, Bool, true, false, ◌||◌, Option, none, some, List, [], ◌∷◌, ◌++◌, ◌==◌, if◌then◌else◌, any,
  Text, text_eq, join, Map, lookup, insert, is_some,
}

-- `glob.Compile`: `none` is an error; a compiled pattern is its `Match`.
abbrev pub Glob : Type 0
Glob = Text → Option (Text → Bool)

-- The implementations of the interface `Filter`: `filtersingle`, `filter`, and a compiled glob.
pub data Filter : Type 0 where
  filtersingle : Text → Filter
  filter : Map (Unit {0}) → Filter
  globbing : (Text → Bool) → Filter

unfoldable pub matches : Filter → Text → Bool
matches (filtersingle t) s = text_eq t s
matches (filter m) s = is_some (lookup s m)
matches (globbing g) s = g s

is_meta : ℕ → Bool
is_meta c = (c == b'*') || (c == b'?') || (c == b'[')

-- `strings.ContainsAny(s, "*?[")`.
unfoldable pub has_meta : Text → Bool
unfolding is_meta
has_meta s = any is_meta s

-- The loop that fills the map of a `filter`.
unfoldable pub fill : List Text → Map (Unit {0}) → Map (Unit {0})
fill [] out = out
fill (f ∷ filters) out = fill filters (insert f tt out)

unfoldable pub compile_filter_no_glob : List Text → Filter
unfolding fill
compile_filter_no_glob (f ∷ []) = filtersingle f
compile_filter_no_glob filters = filter (fill filters [])

globbed : Option (Text → Bool) → Option (Option Filter)
globbed none = none
globbed (some g) = some (some (globbing g))

-- `none` is an error; `some none` is a nil filter.
unfoldable pub compile : Glob → List Text → Option (Option Filter)
unfolding has_meta globbed
compile glob [] = some none
compile glob (f ∷ []) =
    if has_meta f then globbed (glob f) else some (some (compile_filter_no_glob (f ∷ [])))
compile glob (f ∷ g ∷ filters) =
    if any has_meta (f ∷ g ∷ filters)
    then globbed (glob (b'{' ∷ join (f ∷ g ∷ filters) (b',' ∷ []) ++ b'}' ∷ []))
    else some (some (compile_filter_no_glob (f ∷ g ∷ filters)))

pub record IncludeExcludeFilter : Type 0 where
  pub include : Option Filter
  pub exclude : Option Filter
  pub include_default : Bool
  pub exclude_default : Bool

unfoldable pub new_include_exclude_filter_defaults :
    Glob → List Text → List Text → Bool → Bool → Option IncludeExcludeFilter
new_include_exclude_filter_defaults glob include exclude include_default exclude_default =
    elim (compile glob include) [
      | none ↦ none
      | some i ↦ elim (compile glob exclude) [
        | none ↦ none
        | some e ↦ some (record {
          include = i;
          exclude = e;
          include_default = include_default;
          exclude_default = exclude_default;
        })
      ]
    ]

unfoldable pub new_include_exclude_filter :
    Glob → List Text → List Text → Option IncludeExcludeFilter
new_include_exclude_filter glob include exclude =
    new_include_exclude_filter_defaults glob include exclude true false

-- A nil filter stands for the default.
abbrev pub matches_or : Option Filter → Bool → Text → Bool
matches_or none default s = default
matches_or (some f) default s = matches f s

unfoldable pub include_exclude_match : IncludeExcludeFilter → Text → Bool
include_exclude_match f s =
    if matches_or f.include f.include_default s
    then if matches_or f.exclude f.exclude_default s then false else true
    else false
