-- ===== src/Register/Lookups.antt =====
-- lmakelib.cpp, `luaopen_make`: lemmas on the fields of tables.
use presto_build.Base.{
  ℕ, ◌≡◌, inl, inr, refl, sym, ap, ◌∙◌, List, true, false, Bool-cases, same_text, same_text_refl,
  eq_of_same_text,
}
use presto_build.Lua.{
  Value, nil, boolean, number, ticks, string, table, function, userdata, Fields, end, field, is_key,
  get_field, set_field,
}

one_key : (a b : List ℕ) (name : Value) → is_key a name ≡ true → is_key b name ≡ true → a ≡ b
one_key a b (string t) h k = sym (eq_of_same_text t a h) ∙ eq_of_same_text t b k
one_key a b nil h k = cc
one_key a b (boolean x) h k = cc
one_key a b (number n) h k = cc
one_key a b (ticks x n) h k = cc
one_key a b (table f) h k = cc
one_key a b function h k = cc
one_key a b userdata h k = cc

pub get_field-set_field :
    (key : List ℕ) (v : Value) (fields : Fields) → get_field key (set_field key v fields) ≡ v
unfolding get_field set_field
get_field-set_field key v end = rw (same_text_refl key) refl
get_field-set_field key v (field name old fields) = elim (Bool-cases (is_key key name)) [
  | inl e ↦ rw (e, e) refl
  | inr e ↦ rw (e, e) (get_field-set_field key v fields)
]

pub get_field-set_other :
    (key other : List ℕ) (v : Value) (fields : Fields)
    → same_text other key ≡ false
    → get_field key (set_field other v fields) ≡ get_field key fields
unfolding get_field set_field
get_field-set_other key other v end h = rw h refl
get_field-set_other key other v (field name old fields) h = elim (Bool-cases (is_key other name)) [
  | inl e ↦ elim (Bool-cases (is_key key name)) [
    | inl k ↦ cc (h, ap (same_text other) (one_key key other name k e), same_text_refl other)
    | inr k ↦ rw (e, k) refl
  ]
  | inr e ↦ elim (Bool-cases (is_key key name)) [
    | inl k ↦ rw (e, k) refl
    | inr k ↦ rw (e, k) (get_field-set_other key other v fields h)
  ]
]
