-- ===== src/Protect/Stacks.antt =====
-- make.cpp, `docall`: proofs on the stack that it leaves.
use presto_build.Base.{
  ℕ, suc, ◌+◌, ◌-◌, ◌≡◌, refl, sym, ap, ◌∙◌, Option, none, some, List, [], ◌∷◌, ◌++◌, length, take,
  drop, length-append, take-length-append, drop-length-append, append_assoc, append-nil, Bool, true,
  false, arith,
}
use presto_build.Lua.{Value, function, at_index}
use presto_build.Interrupt.{Handler, action, Handlers, Signals, setsignal}
use presto_build.Protect.{
  Called, Lua, insert_at, remove_at, function_of, arguments_of, below, error_object, after_call,
  Left, protected, docall, without,
}

pub at_index-append :
    (xs : List Value) (v : Value) (ys : List Value) → at_index (xs ++ v ∷ ys) (suc (length xs)) ≡ v
at_index-append [] v ys = refl
at_index-append (x ∷ xs) v ys = at_index-append xs v ys

pub take_below : (xs ys : List Value) (n : ℕ) → n ≡ length xs → take n (xs ++ ys) ≡ xs
take_below xs ys n same = ap (λ (m : ℕ). take m (xs ++ ys)) same ∙ take-length-append xs ys

drop_below : (xs ys : List Value) (n : ℕ) → n ≡ length xs → drop n (xs ++ ys) ≡ ys
drop_below xs ys n same = ap (λ (m : ℕ). drop m (xs ++ ys)) same ∙ drop-length-append xs ys

-- A function on the stack, with its arguments above it.
module _ (stack : List Value) (f : Value) (args : List Value) where
  base_lem : length (stack ++ f ∷ args) - length args ≡ suc (length stack)
  base_lem = omega (arith, length-append stack (f ∷ args))

  function_of_lem : function_of (length args) (stack ++ f ∷ args) ≡ f
  function_of_lem = ap (at_index (stack ++ f ∷ args)) base_lem ∙ at_index-append stack f args

  arguments_of_lem : arguments_of (length args) (stack ++ f ∷ args) ≡ args
  arguments_of_lem =
      ap (λ (l : List Value). drop (length (stack ++ f ∷ args) - length args) l)
        (sym (append_assoc stack (f ∷ []) args))
      ∙ drop_below (stack ++ f ∷ []) args (length (stack ++ f ∷ args) - length args)
          (base_lem ∙ omega (arith, length-append stack (f ∷ [])))

  below_lem : below (length args) (stack ++ f ∷ args) ≡ stack
  below_lem =
      take_below stack (f ∷ args) (length (stack ++ f ∷ args) - (length args + 1))
        (omega (arith, length-append stack (f ∷ args)))

  insert_lem :
      (v : Value)
      → insert_at (length (stack ++ f ∷ args) - length args) v (stack ++ f ∷ args)
        ≡ ((stack ++ v ∷ []) ++ f ∷ args)
  insert_lem v =
      let same : length (stack ++ f ∷ args) - length args - 1 ≡ length stack =
        omega (arith, base_lem) in
      rw (take_below stack (f ∷ args) _ same, drop_below stack (f ∷ args) _ same)
        (sym (append_assoc stack (v ∷ []) (f ∷ args)))

  remove_lem :
      (v : Value) (rest : List Value)
      → remove_at (length (stack ++ f ∷ args) - length args) ((stack ++ v ∷ []) ++ rest)
        ≡ stack ++ rest
  remove_lem v rest =
      let same : length (stack ++ f ∷ args) - length args - 1 ≡ length stack =
        omega (arith, base_lem) in
      let more : length (stack ++ f ∷ args) - length args ≡ length (stack ++ v ∷ []) =
        omega (arith, base_lem, length-append stack (v ∷ [])) in
      rw
        (
          drop_below (stack ++ v ∷ []) rest _ more,
          append_assoc stack (v ∷ []) rest,
          take_below stack (v ∷ rest) _ same,
        )
        refl

-- What a failing call has on top of the stack below.
abbrev pub error_part : Lua → Bool → Option (ℕ × Value) → List Value
error_part lua traced none = []
error_part lua traced (some (code, e)) = error_object lua traced code e ∷ []

abbrev pub status_of : Option (ℕ × Value) → ℕ
status_of none = 0
status_of (some (code, e)) = suc code

-- All four signals have the handler.
abbrev pub alike : Handler → Handlers
alike h = record { on_abort = h; on_stop = h; on_terminate = h; on_interrupt = h }

abbrev pub left_with : ℕ × List Value → Signals → Left
left_with out t = record { status = out.0; stack = out.1; signals = t }

-- What a call leaves, from how the function ended.
abbrev pub left_by : Lua → Bool → List Value → Handler → Called → Left
left_by lua traced stack old called = record {
  status = status_of called.failure;
  stack = stack ++ error_part lua traced called.failure;
  signals = (setsignal old called.signals).1;
}

module _ (lua : Lua) (stack : List Value) (f : Value) (args : List Value) (s : Signals) where
  abbrev pub armed_call : Called
  armed_call = lua.call f args (setsignal action s).1

  protected_lem :
      (traced : Bool)
      → protected lua traced (length args) (stack ++ f ∷ args) s
        ≡ left_by lua traced stack (setsignal action s).0 armed_call
  protected_lem traced =
      rw (below_lem stack f args, function_of_lem stack f args, arguments_of_lem stack f args)
        (go armed_call.failure (setsignal (setsignal action s).0 armed_call.signals).1)
    where
      go :
          (failure : Option (ℕ × Value)) (t : Signals)
          → left_with (after_call lua traced stack failure) t
            ≡ left_with (status_of failure, stack ++ error_part lua traced failure) t
      go none t = ap (λ l. left_with (0, l) t) (sym (append-nil stack))
      go (some (code, e)) t = refl

module _ (lua : Lua) (stack : List Value) (f : Value) (args : List Value) (s : Signals) where
  -- `docall` takes its own function off again.
  pub docall-eq :
      (traced : Bool)
      → docall lua (length args) traced (stack ++ f ∷ args) s
        ≡ left_by lua traced stack (setsignal action s).0 (armed_call lua stack f args s)
  unfolding docall
  docall-eq false = protected_lem lua stack f args s false
  docall-eq true =
      ap (λ l. without base (protected lua true (length args) l s))
        (insert_lem stack f args function)
      ∙ ap (without base) (protected_lem lua (stack ++ function ∷ []) f args s true)
      ∙ ap
          (λ l.
            left_with (status_of called.failure, l)
              (setsignal (setsignal action s).0 called.signals).1)
          (remove_lem stack f args function (error_part lua true called.failure))
    where
      base : ℕ
      base = length (stack ++ f ∷ args) - length args

      called : Called
      called = armed_call lua stack f args s
