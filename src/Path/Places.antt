-- ===== src/Path/Places.antt =====
-- lmakelib.cpp, make.path.where: proofs on a table of places.
use presto_build.Base.{
  ℕ, suc, ◌+◌, ◌≤◌, ◌<◌, ◌≡◌, ◌≢◌, refl, sym, ap, ◌∙◌, some, List, [], ◌∷◌, ◌++◌, map, length,
  length-append, length-map, append_assoc, append-nil, true, false, ◌==◌, leb, if◌then◌else◌, All,
  arith, ne→==, ==_iff, Bool-cases, inl, inr,
}
use presto_build.Lua.{Value, nil, string, table, raises, message}
use presto_build.Env.{c_string}
use presto_build.Path.{PathCalls, Ran, ran, back_slash, get_wide_path}
use presto_build.Path.Search.{
  search_size, lookup, field_count, values_from, join_text, join_texts, searched, start_of,
  search_in, make_path_where,
}
use presto_build.Path.Texts.{numbered}

-- Each text with a semicolon behind it.
abbrev pub joined : List (List ℕ) → List ℕ
joined [] = []
joined (t ∷ ts) = t ++ b';' ∷ joined ts

lookup-numbered_before : (vs : List Value) (pos i : ℕ) → i < pos → lookup (numbered pos vs) i ≡ nil
lookup-numbered_before [] pos i lt = refl
lookup-numbered_before (v ∷ vs) pos i lt =
    let other : (pos == i) ≡ false = ne→== pos i (λ e. omega arith) in
    rw other (lookup-numbered_before vs (pos + 1) i (omega arith))

lookup-numbered :
    (us : List Value) (v : Value) (vs : List Value) (pos : ℕ)
    → lookup (numbered pos (us ++ v ∷ vs)) (pos + length us) ≡ v
lookup-numbered [] v vs pos =
    let here : (pos == (pos + 0)) ≡ true = (==_iff pos (pos + 0)).1 (omega arith) in rw here refl
lookup-numbered (u ∷ us) v vs pos =
    let other : (pos == (pos + suc (length us))) ≡ false =
      ne→== pos (pos + suc (length us)) (λ e. omega arith) in
    rw other (
      ap (λ i. lookup (numbered (pos + 1) (us ++ v ∷ vs)) i)
        (let e : pos + suc (length us) ≡ (pos + 1) + length us = omega arith in e)
      ∙ lookup-numbered us v vs (pos + 1))

field_count-numbered : (vs : List Value) (pos : ℕ) → field_count (numbered pos vs) ≡ length vs
field_count-numbered [] pos = refl
field_count-numbered (v ∷ vs) pos = let ih = field_count-numbered vs (pos + 1) in omega arith

values_from-numbered :
    (us : List Value) (ts : List (List ℕ))
    → values_from (length ts) (numbered 1 (us ++ map string ts)) (1 + length us) ≡ map string ts
values_from-numbered us [] = refl
values_from-numbered us (t ∷ ts) =
    rw (lookup-numbered us (string t) (map string ts) 1, values_from)
      (ap (λ vs. string t ∷ vs)
        (ap (λ i. values_from (length ts) (numbered 1 (us ++ string t ∷ map string ts)) i)
            (let e : 1 + length us + 1 ≡ 1 + length (us ++ string t ∷ []) =
                omega (arith, length-append us (string t ∷ [])) in
              e)
          ∙ ap (λ vs. values_from (length ts) (numbered 1 vs) (1 + length (us ++ string t ∷ [])))
              (sym (append_assoc us (string t ∷ []) (map string ts)))
          ∙ values_from-numbered (us ++ string t ∷ []) ts))

-- No unit is zero.
abbrev pub NoZero : List ℕ → Type 0
NoZero = All (λ c. c ≢ 0)

c_string-NoZero : (s : List ℕ) → NoZero s → c_string s ≡ s
unfolding c_string
c_string-NoZero [] h = refl
c_string-NoZero (c ∷ s) h = rw (c_string-NoZero s h.1, ne→== c 0 h.0) refl

back_slash-NoZero : (s : List ℕ) → NoZero s → NoZero (map back_slash s)
unfolding back_slash
back_slash-NoZero [] h = tt
back_slash-NoZero (c ∷ s) h = (go, back_slash-NoZero s h.1)
  where
    go : (if c == b'/' then 92 else c) ≢ 0
    go = elim (Bool-cases (c == b'/')) [
      | inl e ↦ rw e (λ f. absurd (omega (arith, f)))
      | inr e ↦ rw e h.0
    ]

map-back_slash : (a b : List ℕ) → map back_slash (a ++ b) ≡ map back_slash a ++ map back_slash b
map-back_slash [] b = refl
map-back_slash (c ∷ a) b = ap (λ s. back_slash c ∷ s) (map-back_slash a b)

back_slash-joined :
    (ws : List (List ℕ)) → map back_slash (joined ws) ≡ joined (map (map back_slash) ws)
unfolding back_slash
back_slash-joined [] = refl
back_slash-joined (w ∷ ws) =
    map-back_slash w (b';' ∷ joined ws)
    ∙ ap (λ s. map back_slash w ++ b';' ∷ s) (back_slash-joined ws)

NoZero-append : (v w : List ℕ) → NoZero v → NoZero w → NoZero (v ++ b';' ∷ w)
NoZero-append [] w h k = ((λ e. absurd (omega (arith, e))), k)
NoZero-append (c ∷ v) w h k = (h.0, NoZero-append v w h.1 k)

joined-NoZero : (ws : List (List ℕ)) → All NoZero ws → NoZero (joined ws)
joined-NoZero [] h = tt
joined-NoZero (w ∷ ws) h = NoZero-append w (joined ws) h.0 (joined-NoZero ws h.1)

fits_in : (n : ℕ) → n ≤ 32768 → leb 32769 n ≡ false
fits_in n h = ground arith

-- One text that fits.
join_text_lem :
    (used wide : List ℕ) (next : List ℕ → Ran)
    → NoZero wide
    → length used + length wide + 2 ≤ 32768
    → join_text used wide next ≡ next (used ++ wide ++ b';' ∷ [])
join_text_lem used wide next clean fits = rw (c_string-NoZero wide clean) (
    rw
      (
        fits_in (length used + length wide + 1) (omega arith),
        fits_in (length used + length wide + 2) fits,
      )
      refl)

all_values :
    (ts : List (List ℕ))
    → values_from (field_count (numbered 1 (map string ts))) (numbered 1 (map string ts)) 1
      ≡ map string ts
all_values ts =
    ap (λ n. values_from n (numbered 1 (map string ts)) 1)
      (field_count-numbered (map string ts) 1 ∙ length-map ts (λ t. string t))
    ∙ values_from-numbered [] ts

module _ (os : PathCalls) where
  abbrev wides : List (List ℕ) → List (List ℕ)
  wides = map (λ t. map back_slash (os.to_wide t))

  -- The texts are written one behind the other, where they fit.
  join_texts-joined :
      (ts : List (List ℕ)) (used : List ℕ) (next : List ℕ → Ran)
      → All (λ t. NoZero (os.to_wide t)) ts
      → length used + length (joined (wides ts)) < search_size
      → join_texts os used (map string ts) next ≡ next (used ++ joined (wides ts))
  unfolding join_texts
  join_texts-joined [] used next clean fits = ap next (sym (append-nil used))
  join_texts-joined (t ∷ ts) used next clean fits =
      join_text_lem used w (λ used'. join_texts os used' (map string ts) next)
        (back_slash-NoZero (os.to_wide t) clean.0)
        (omega (arith, length-append w (b';' ∷ joined (wides ts)), fits))
      ∙ join_texts-joined ts (used ++ w ++ b';' ∷ []) next clean.1
          (omega (arith, longer, length-append w (b';' ∷ joined (wides ts)), fits))
      ∙ ap next (
          append_assoc (used ++ w) (b';' ∷ []) (joined (wides ts))
          ∙ append_assoc used w (b';' ∷ joined (wides ts)))
    where
      w : List ℕ
      w = map back_slash (os.to_wide t)

      longer : length (used ++ w ++ b';' ∷ []) ≡ length used + (length w + 1)
      longer = omega (arith, length-append (used ++ w) (b';' ∷ []), length-append used w)

  -- The two ways to give the places lead to one search.
  places_found :
      (ts : List (List ℕ)) (wide : List ℕ) (next : List ℕ → Ran)
      → All (λ t. NoZero (os.to_wide t)) ts
      → length (joined (wides ts)) < search_size
      → wide ≡ joined (map os.to_wide ts)
      → join_texts os [] (map string ts) next ≡ next (c_string (map back_slash wide))
  places_found ts wide next clean fits same =
      join_texts-joined ts [] next clean (omega (arith, fits))
      ∙ ap next (
          sym (
            ap (λ s. c_string (map back_slash s)) same
            ∙ ap c_string (back_slash-joined (map os.to_wide ts) ∙ ap joined (map_map ts))
            ∙ c_string-NoZero (joined (wides ts)) (joined-NoZero (wides ts) (all_clean ts clean))))
    where
      map_map : (us : List (List ℕ)) → map (map back_slash) (map os.to_wide us) ≡ wides us
      map_map [] = refl
      map_map (u ∷ us) = ap (λ rest. map back_slash (os.to_wide u) ∷ rest) (map_map us)

      all_clean : (us : List (List ℕ)) → All (λ t. NoZero (os.to_wide t)) us → All NoZero (wides us)
      all_clean [] h = tt
      all_clean (u ∷ us) h = (back_slash-NoZero (os.to_wide u) h.0, all_clean us h.1)

  -- For a file name, and one or more texts as the places: where the text of all of them, each with a
  -- semicolon behind it, is no number and converts to UTF-16 as its parts do, no part has a zero, and the
  -- whole is shorter than the array of 32768 units, make.path.where gives the same for the table of the
  -- texts as for that text.
  pub make_path_where-joined :
      (name t : List ℕ) (ts : List (List ℕ))
      → os.is_numeric (joined (t ∷ ts)) ≡ false
      → os.to_wide (joined (t ∷ ts)) ≡ joined (map os.to_wide (t ∷ ts))
      → All (λ u. NoZero (os.to_wide u)) (t ∷ ts)
      → length (joined (wides (t ∷ ts))) < search_size
      → make_path_where os (string name ∷ table (numbered 1 (map string (t ∷ ts))) ∷ [])
        ≡ make_path_where os (string name ∷ string (joined (t ∷ ts)) ∷ [])
  unfolding make_path_where search_in get_wide_path
  make_path_where-joined name t ts no_number converts clean fits =
      ap (λ vs. join_texts os (start_of os vs) vs next) (all_values (t ∷ ts))
      ∙ places_found (t ∷ ts) (os.to_wide (joined (t ∷ ts))) next clean fits converts
      ∙ ap
          (λ b.
            if b then refused else next (c_string (map back_slash (os.to_wide (joined (t ∷ ts))))))
          (sym no_number)
    where
      next : List ℕ → Ran
      next path = searched os (c_string (map back_slash (os.to_wide name))) (some path)

      refused : Ran
      refused = ran (raises (message "expected string or table for search path"))
