-- ===== src/Path/Slashes.antt =====
-- lmakelib.cpp, the make.path functions: proofs on the slashes of what they give.
use presto_build.Base.{
  ℕ, ◌+◌, ◌≢◌, refl, Option, none, some, List, [], ◌++◌, ◌∷◌, map, length, Bool, true, false, ◌||◌,
  leb, if◌then◌else◌,
}
use presto_build.Lua.{
  Frame, Value, nil, string, number, ticks, boolean, table, function, userdata, Fields, field,
  returns, raises, bad_top, message, at_index, to_text, check_text,
}
use presto_build.Env.{c_string}
use presto_build.Path.{
  PathCalls, Ran, ran, overran, max_path, back_slash, get_wide_path, push_path, push_wide_path,
  convert_to_string,
}
use presto_build.Path.Functions.{
  make_path_from_os, make_path_short, make_path_long, make_path_full, make_path_canonicalize,
  make_path_add_slash, make_path_remove_slash, make_path_remove_ext, make_path_quote,
  make_path_unquote, make_path_get_ext, make_path_get_name, make_path_get_dir,
  make_path_is_relative, make_path_add_ext, make_path_change_ext, is_nil, combine_from,
  make_path_combine, make_path_common, glob_from, make_path_glob, PathName, canonicalize, add_slash,
  remove_slash, is_relative, quote, unquote, add_ext, get_ext, change_ext, remove_ext, get_name,
  get_dir, combine, common, short, long, full, glob, search, to_os, from_os, call_path,
}
use presto_build.Path.Search.{
  search_size, join_text, path_or_nil, start_of, values_from, field_count, join_texts, searched,
  search_in, make_path_where,
}
use presto_build.Path.Presto.{
  IsPresto, ArePresto, OutcomeIsPresto, GivesPresto, slashes-NoBackslash, is_dots,
  push_wide_path-IsPresto, bind-IsPresto, with_path-GivesPresto, GivesPresto-if, on_path-IsPresto,
  on_copy-GivesPresto, on_copy_and_path-GivesPresto,
}

combine_from-GivesPresto :
    (os : PathCalls) (path_out : List ℕ) (frame : Frame)
    → GivesPresto (combine_from os path_out frame)
unfolding combine_from
combine_from-GivesPresto os path_out [] = (push_wide_path-IsPresto os path_out, tt)
combine_from-GivesPresto os path_out (v ∷ frame) =
    let wide = map back_slash (os.to_wide (convert_to_string os v)) in
    let more = combine_from os (os.path_combine path_out (c_string wide)) frame in
    let long = leb max_path (length wide) in
    GivesPresto-if (is_nil v) (ran (returns (push_wide_path os path_out ∷ [])))
      (if long then overran else more) (push_wide_path-IsPresto os path_out, tt)
      (GivesPresto-if long overran more tt
        (combine_from-GivesPresto os (os.path_combine path_out (c_string wide)) frame))

path_or_nil-IsPresto : (os : PathCalls) (path : List ℕ) → IsPresto (path_or_nil os path)
unfolding IsPresto
path_or_nil-IsPresto os [] = tt
path_or_nil-IsPresto os (c ∷ cs) = push_wide_path-IsPresto os (c ∷ cs)

ArePresto-if :
    (b : Bool) (x y : Fields) → ArePresto x → ArePresto y → ArePresto (if b then x else y)
ArePresto-if true x y hx hy = hx
ArePresto-if false x y hx hy = hy

glob_from-ArePresto :
    (os : PathCalls) (pos : ℕ) (names : List (List ℕ)) → ArePresto (glob_from os pos names)
unfolding glob_from IsPresto
glob_from-ArePresto os pos [] = tt
glob_from-ArePresto os pos (name ∷ names) =
    let skipped = glob_from os pos names in
    let listed = field (number pos) (push_wide_path os name) (glob_from os (pos + 1) names) in
    ArePresto-if (is_dots name) skipped listed (glob_from-ArePresto os pos names)
      (tt, push_wide_path-IsPresto os name, glob_from-ArePresto os (pos + 1) names)

from_os-IsPresto : (os : PathCalls) (frame : Frame) → OutcomeIsPresto (make_path_from_os os frame)
unfolding make_path_from_os push_path IsPresto
from_os-IsPresto os frame =
    bind-IsPresto (check_text os.api frame 1) _ (λ path. (slashes-NoBackslash (c_string path), tt))

searched-GivesPresto :
    (os : PathCalls) (path_in : List ℕ) (path : Option (List ℕ))
    → GivesPresto (searched os path_in path)
unfolding searched
searched-GivesPresto os path_in path = (path_or_nil-IsPresto os (os.search_path path path_in), tt)

join_texts-GivesPresto :
    (os : PathCalls) (used : List ℕ) (values : List Value) (next : List ℕ → Ran)
    → ((path : List ℕ) → GivesPresto (next path))
    → GivesPresto (join_texts os used values next)
unfolding join_texts
join_texts-GivesPresto os used [] next h = h used
join_texts-GivesPresto os used (v ∷ values) next h =
    go (to_text os.api v) (λ used'. join_texts-GivesPresto os used' values next h)
  where
    go :
        (o : Option (List ℕ))
        → ((used' : List ℕ) → GivesPresto (join_texts os used' values next))
        → GivesPresto (elim o [
          | none ↦ ran (raises bad_top)
          | some text ↦
              join_text used
                (map back_slash (os.to_wide text))
                (λ used'. join_texts os used' values next)
        ])
    go none more = tt
    go (some text) more =
        let wide = map back_slash (os.to_wide text) in
        let full =
          leb (search_size + 1) (length used + length wide + 1)
          || leb (search_size + 1) (length used + length (c_string wide) + 2) in
        GivesPresto-if full overran _ tt (more (used ++ c_string wide ++ b';' ∷ []))

search_in-GivesPresto :
    (os : PathCalls) (path_in : List ℕ) (frame : Frame) (v : Value)
    → GivesPresto (search_in os path_in frame v)
unfolding search_in
search_in-GivesPresto os path_in frame (string s) =
    GivesPresto-if (os.is_numeric s)
      (ran (raises (message "expected string or table for search path"))) _ tt
      (with_path-GivesPresto (get_wide_path os frame 2) _
        (λ path. searched-GivesPresto os path_in (some path)))
search_in-GivesPresto os path_in frame (table fields) =
    let values = values_from (field_count fields) fields 1 in
    join_texts-GivesPresto os (start_of os values) values _
      (λ path. searched-GivesPresto os path_in (some path))
search_in-GivesPresto os path_in frame nil = tt
search_in-GivesPresto os path_in frame (boolean b) = tt
search_in-GivesPresto os path_in frame (number n) = tt
search_in-GivesPresto os path_in frame (ticks b n) = tt
search_in-GivesPresto os path_in frame function = tt
search_in-GivesPresto os path_in frame userdata = tt

-- Whatever the operating system answers, no function of make.path but to_os gives a text with a backslash,
-- also within the table of glob.
pub call_path-GivesPresto :
    (name : PathName) (os : PathCalls) (frame : Frame)
    → name ≢ to_os
    → GivesPresto (call_path name os frame)
unfolding call_path make_path_short make_path_long make_path_full make_path_canonicalize
    make_path_add_slash make_path_remove_slash make_path_remove_ext make_path_quote
    make_path_unquote make_path_get_ext make_path_get_name make_path_get_dir make_path_is_relative
    make_path_where make_path_add_ext make_path_change_ext make_path_combine make_path_common
    make_path_glob IsPresto
call_path-GivesPresto canonicalize os frame h = on_path-IsPresto os frame _
call_path-GivesPresto add_slash os frame h = on_copy-GivesPresto os frame _
call_path-GivesPresto remove_slash os frame h = on_copy-GivesPresto os frame _
call_path-GivesPresto is_relative os frame h =
    bind-IsPresto (get_wide_path os frame 1) _ (λ path. (tt, tt))
call_path-GivesPresto quote os frame h = on_copy-GivesPresto os frame _
call_path-GivesPresto unquote os frame h = on_copy-GivesPresto os frame _
call_path-GivesPresto add_ext os frame h = on_copy_and_path-GivesPresto os frame _
call_path-GivesPresto get_ext os frame h = on_path-IsPresto os frame _
call_path-GivesPresto change_ext os frame h = on_copy_and_path-GivesPresto os frame _
call_path-GivesPresto remove_ext os frame h = on_copy-GivesPresto os frame _
call_path-GivesPresto get_name os frame h = on_path-IsPresto os frame _
call_path-GivesPresto get_dir os frame h = on_path-IsPresto os frame _
call_path-GivesPresto combine os frame h = combine_from-GivesPresto os [] frame
call_path-GivesPresto common os frame h = bind-IsPresto (get_wide_path os frame 1) _ (λ path1.
    bind-IsPresto (get_wide_path os frame 2) _
      (λ path2. (path_or_nil-IsPresto os (os.path_common_prefix path1 path2), tt)))
call_path-GivesPresto short os frame h = on_path-IsPresto os frame _
call_path-GivesPresto long os frame h = on_path-IsPresto os frame _
call_path-GivesPresto full os frame h = on_path-IsPresto os frame _
call_path-GivesPresto glob os frame h =
    bind-IsPresto (get_wide_path os frame 1) _
      (λ path. (glob_from-ArePresto os 1 (os.find_files path), tt))
call_path-GivesPresto search os frame h =
    with_path-GivesPresto (get_wide_path os frame 1) _ (λ path_in.
      GivesPresto-if (leb 2 (length frame)) _ _
        (search_in-GivesPresto os path_in frame (at_index frame 2))
        (searched-GivesPresto os path_in none))
call_path-GivesPresto to_os os frame h = absurd (h refl)
call_path-GivesPresto from_os os frame h = from_os-IsPresto os frame
