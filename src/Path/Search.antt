-- ===== src/Path/Search.antt =====
-- lmakelib.cpp: make.path.where.
use presto_build.Base.{
  ℕ, zero, suc, ◌+◌, List, [], ◌∷◌, ◌++◌, map, length, ◌==◌, ◌||◌, leb, Option, none, some,
  if◌then◌else◌,
}
use presto_build.Lua.{
  Frame, Value, nil, string, number, table, Fields, end, field, returns, raises, bad_top, message,
  at_index, to_text,
}
use presto_build.Env.{c_string}
use presto_build.Path.{
  PathCalls, Ran, ran, overran, back_slash, get_wide_path, push_wide_path, with_path,
}

abbrev pub path_or_nil : PathCalls → List ℕ → Value
path_or_nil os [] = nil
path_or_nil os (c ∷ cs) = push_wide_path os (c ∷ cs)

-- wchar_t path[32768]
abbrev pub search_size : ℕ
search_size = 32768

-- lua_gettable at a number.
abbrev pub lookup : Fields → ℕ → Value
lookup end pos = nil
lookup (field (number n) v fields) pos =
    let rest = lookup fields pos in if n == pos then v else rest
lookup (field k v fields) pos = lookup fields pos

abbrev pub field_count : Fields → ℕ
field_count end = 0
field_count (field k v fields) = field_count fields + 1

-- The values at the numbers from `pos` on, up to the first nil. A table has no more numbers than fields,
-- which is the fuel.
abbrev pub values_from : ℕ → Fields → ℕ → List Value
values_from zero fields pos = []
values_from (suc fuel) fields pos =
    let rest = values_from fuel fields (pos + 1) in
    elim (lookup fields pos) [ nil ↦ [] | v ↦ v ∷ rest ]

-- One text is written behind `used`, with its zero, and then a semicolon and a zero over it.
abbrev pub join_text : List ℕ → List ℕ → (List ℕ → Ran) → Ran
join_text used wide next =
    let more = next (used ++ c_string wide ++ b';' ∷ []) in
    if leb (search_size + 1) (length used + length wide + 1)
      || leb (search_size + 1) (length used + length (c_string wide) + 2)
    then overran
    else more

unfoldable pub join_texts : PathCalls → List ℕ → List Value → (List ℕ → Ran) → Ran
join_texts os used [] next = next used
join_texts os used (v ∷ values) next = elim (to_text os.api v) [
  | none ↦ ran (raises bad_top)
  | some text ↦
      join_text used (map back_slash (os.to_wide text)) (λ used'. join_texts os used' values next)
]

-- SearchPathW, and the result.
unfoldable pub searched : PathCalls → List ℕ → Option (List ℕ) → Ran
searched os path_in path = ran (returns (path_or_nil os (os.search_path path path_in) ∷ []))

-- An array in which nothing was written is read as it is.
abbrev pub start_of : PathCalls → List Value → List ℕ
start_of os [] = os.unset_text
start_of os (v ∷ values) = []

-- The list of places to search, at index 2.
unfoldable pub search_in : PathCalls → List ℕ → Frame → Value → Ran
search_in os path_in frame (string s) =
    if os.is_numeric s
    then ran (raises (message "expected string or table for search path"))
    else with_path (get_wide_path os frame 2) (λ path. searched os path_in (some path))
search_in os path_in frame (table fields) =
    let values = values_from (field_count fields) fields 1 in
    join_texts os (start_of os values) values (λ path. searched os path_in (some path))
search_in os path_in frame v = ran (raises (message "expected string or table for search path"))

unfoldable pub make_path_where : PathCalls → Frame → Ran
make_path_where os frame = with_path (get_wide_path os frame 1) (λ path_in.
    if leb 2 (length frame)
    then search_in os path_in frame (at_index frame 2)
    else searched os path_in none)
