-- ===== src/Console/Texts.antt =====
-- What a message leaves on stderr, and in which colour it leaves the console.
use presto_build.Base.{
  ℕ, zero, suc, ◌<◌, ◌≤◌, ◌≡◌, refl, sym, ap, ◌∙◌, List, [], ◌∷◌, ◌++◌, append_assoc, length, Bool,
  true, false, ◌==◌, Bool-cases, inl, inr, some, if◌then◌else◌, arith,
}
use presto_build.Console.{
  Call, attribute, text, prefix, stack_traceback, colored, next_line, begins_with, write_line,
  write_lines, framed, l_message,
}

-- All the bytes that are written.
abbrev pub text_of : List Call → List ℕ
text_of [] = []
text_of (attribute n ∷ calls) = text_of calls
text_of (text bytes ∷ calls) = bytes ++ text_of calls

-- The attribute that is set in the end.
abbrev pub left_attribute : ℕ → List Call → ℕ
left_attribute n [] = n
left_attribute n (attribute m ∷ calls) = left_attribute m calls
left_attribute n (text bytes ∷ calls) = left_attribute n calls

text_of-append : (xs ys : List Call) → text_of (xs ++ ys) ≡ text_of xs ++ text_of ys
text_of-append [] ys = refl
text_of-append (attribute n ∷ xs) ys = text_of-append xs ys
text_of-append (text bytes ∷ xs) ys =
    ap (λ t. bytes ++ t) (text_of-append xs ys) ∙ sym (append_assoc bytes (text_of xs) (text_of ys))

left_attribute-append :
    (n : ℕ) (xs ys : List Call)
    → left_attribute n (xs ++ ys) ≡ left_attribute (left_attribute n xs) ys
left_attribute-append n [] ys = refl
left_attribute-append n (attribute m ∷ xs) ys = left_attribute-append m xs ys
left_attribute-append n (text bytes ∷ xs) ys = left_attribute-append n xs ys

next_line_joins : (msg : List ℕ) → (next_line msg).0 ++ (next_line msg).1 ≡ msg
unfolding next_line
next_line_joins [] = refl
next_line_joins (c ∷ cs) = elim (Bool-cases (c == 10)) [
  | inl e ↦ rw e refl
  | inr e ↦ rw e (ap (λ t. c ∷ t) (next_line_joins cs))
]

next_line_shorter : (c : ℕ) (cs : List ℕ) → length (next_line (c ∷ cs)).1 ≤ length cs
unfolding next_line
next_line_shorter c [] = elim (Bool-cases (c == 10)) [
  | inl e ↦ rw e (omega arith)
  | inr e ↦ rw e (omega arith)
]
next_line_shorter c (d ∷ cs) = elim (Bool-cases (c == 10)) [
  | inl e ↦ rw e (omega arith)
  | inr e ↦ rw e (let ih = next_line_shorter d cs in omega (arith, ih))
]

text_of-if :
    (b : Bool) (n : ℕ) (line : List ℕ) (more : List Call)
    → text_of (if b then attribute n ∷ text line ∷ more else text line ∷ more)
      ≡ line ++ text_of more
text_of-if true n line more = refl
text_of-if false n line more = refl

write_lines_lem :
    (fuel attributes : ℕ) (msg : List ℕ)
    → length msg < fuel
    → (calls : List Call) × (write_lines fuel attributes msg ≡ some calls) × (text_of calls ≡ msg)
unfolding write_lines
write_lines_lem zero attributes msg enough = absurd (omega arith)
write_lines_lem (suc fuel) attributes [] enough = ([], refl, refl)
write_lines_lem (suc fuel) attributes (c ∷ cs) enough =
    let shorter = next_line_shorter c cs in
    let (more, wrote, joined) =
      write_lines_lem fuel attributes (next_line (c ∷ cs)).1 (omega (arith, shorter, enough)) in
    (
      _,
      ap (write_line attributes (c ∷ cs) (next_line (c ∷ cs)).0) wrote,
      text_of-if (begins_with stack_traceback (c ∷ cs)) (colored attributes 0x08)
            (next_line (c ∷ cs)).0 more
          ∙ ap (λ t. (next_line (c ∷ cs)).0 ++ t) joined
          ∙ next_line_joins (c ∷ cs),
    )

-- With fuel for one round more than the message has bytes, `l_message` returns: it has written the prefix,
-- the whole message and a line end, and the console has the attributes that it had.
pub l_message_lem :
    (fuel attributes : ℕ) (msg : List ℕ)
    → length msg < fuel
    → (calls : List Call) × (l_message fuel attributes msg ≡ some calls)
      × (text_of calls ≡ prefix ++ (msg ++ 10 ∷ []))
      × (left_attribute attributes calls ≡ attributes)
unfolding l_message
l_message_lem fuel attributes msg enough =
    let (lines, wrote, joined) = write_lines_lem fuel attributes msg enough in
    let ending = text (10 ∷ []) ∷ attribute attributes ∷ [] in
    (
      _,
      ap (framed attributes) wrote,
      ap (λ t. prefix ++ t) (text_of-append lines ending ∙ ap (λ t. t ++ 10 ∷ []) joined),
      left_attribute-append attributes lines ending,
    )
