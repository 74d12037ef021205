-- ===== src/Protect/Failures.antt =====
-- make.cpp, `report` and its callers: proofs on the stack, the console and the signal handlers that they leave.
use presto_build.Base.{
  ℕ, suc, ◌-◌, ◌<◌, ◌≡◌, ◌≢◌, ◌⊎◌, inl, inr, refl, sym, ap, ◌∙◌, subst, Option, none, some, List,
  [], ◌∷◌, ◌++◌, length, take, length-append, append-nil, Bool, true, false, ◌||◌, if◌then◌else◌,
  arith,
}
use presto_build.Lua.{
  Value, nil, boolean, number, ticks, string, table, function, userdata, at_index,
}
use presto_build.Console.{Call, prefix, l_message}
use presto_build.Console.Texts.{text_of, left_attribute, l_message_lem}
use presto_build.Interrupt.{action, Signals, setsignal}
use presto_build.Protect.{
  Called, Lua, error_object, Left, message_of, is_nil_object, succeeded, Reported, top, report,
  Loaded, loaded, unloaded, load_or_call, dofile, dolibrary,
}
use presto_build.Protect.Stacks.{
  at_index-append, take_below, error_part, status_of, alike, left_with, armed_call, docall-eq,
}

-- What a protected call and a report of its failure leave: the stack as it was, with the message on the
-- console, or a nil more where that is the error object; and nothing on the console where it did not fail.
abbrev pub Reports : Lua → ℕ → List Value → Option (ℕ × Value) → Reported → Type 0
Reports lua attributes stack none r =
    (r.left.status ≡ 0) × (r.left.stack ≡ stack) × (r.console ≡ some [])
Reports lua attributes stack (some (code, e)) r =
    (r.left.status ≡ suc code)
    × (((e ≡ nil) × (r.left.stack ≡ stack ++ nil ∷ []) × (r.console ≡ some []))
        ⊎ ((e ≢ nil)
            × (r.left.stack ≡ stack)
            × ((calls : List Call) × (r.console ≡ some calls)
                × (text_of calls ≡ prefix ++ (message_of lua e ++ 10 ∷ []))
                × (left_attribute attributes calls ≡ attributes))))

is_nil_object-cases :
    (v : Value) → ((v ≡ nil) × (is_nil_object v ≡ true)) ⊎ ((v ≢ nil) × (is_nil_object v ≡ false))
is_nil_object-cases nil = inl (refl, refl)
is_nil_object-cases (boolean b) = inr ((λ h. cc), refl)
is_nil_object-cases (number n) = inr ((λ h. cc), refl)
is_nil_object-cases (ticks b n) = inr ((λ h. cc), refl)
is_nil_object-cases (string t) = inr ((λ h. cc), refl)
is_nil_object-cases (table t) = inr ((λ h. cc), refl)
is_nil_object-cases function = inr ((λ h. cc), refl)
is_nil_object-cases userdata = inr ((λ h. cc), refl)

top_lem : (stack : List Value) (e : Value) → top (stack ++ e ∷ []) ≡ e
top_lem stack e =
    let same : length (stack ++ e ∷ []) ≡ suc (length stack) =
      omega (arith, length-append stack (e ∷ [])) in
    ap (at_index (stack ++ e ∷ [])) same ∙ at_index-append stack e []

report-Reports :
    (lua : Lua) (fuel attributes : ℕ) (stack : List Value) (failure : Option (ℕ × Value))
    (t : Signals)
    → ((code : ℕ) (e : Value) → failure ≡ some (code, e) → length (message_of lua e) < fuel)
    → Reports lua attributes stack failure (
        report lua fuel attributes
          (left_with (status_of failure, stack ++ error_part lua false failure) t))
unfolding report
report-Reports lua fuel attributes stack none t enough = (refl, append-nil stack, refl)
report-Reports lua fuel attributes stack (some (code, e)) t enough =
    go (top (stack ++ e ∷ [])) (top_lem stack e)
  where
    go :
        (v : Value)
        → v ≡ e
        → Reports lua attributes stack (some (code, e)) (
            if is_nil_object v
            then record { console = some []; left = left_with (suc code, stack ++ e ∷ []) t }
            else record {
              console = l_message fuel attributes (message_of lua v);
              left = left_with (suc code, take (length (stack ++ e ∷ []) - 1) (stack ++ e ∷ [])) t;
            })
    go v same = elim (is_nil_object-cases e) [
      | inl (empty, test) ↦
          rw (same, test) (refl, inl (empty, ap (λ x. stack ++ x ∷ []) empty, refl))
      | inr (ne, test) ↦
          let (calls, wrote, joined, restored) =
            l_message_lem fuel attributes (message_of lua e) (enough code e refl) in
          rw (same, test)
            (
              refl,
              inr (
                ne,
                take_below stack (e ∷ []) _ (omega (arith, length-append stack (e ∷ []))),
                (calls, wrote, joined, restored),
              ),
            )
    ]

-- What the error object of a failure is once `traceback` has had it, where it is that of a runtime error.
abbrev pub traced : Lua → Option (ℕ × Value) → Option (ℕ × Value)
traced lua none = none
traced lua (some (code, e)) = some (code, error_object lua true code e)

traced_left :
    (lua : Lua) (stack : List Value) (failure : Option (ℕ × Value)) (t : Signals)
    → left_with (status_of failure, stack ++ error_part lua true failure) t
      ≡ left_with
          (status_of (traced lua failure), stack ++ error_part lua false (traced lua failure))
          t
traced_left lua stack none t = refl
traced_left lua stack (some (code, e)) t = refl

report-signals :
    (lua : Lua) (fuel attributes : ℕ) (left : Left)
    → (report lua fuel attributes left).left.signals ≡ left.signals
unfolding report
report-signals lua fuel attributes left =
    either (succeeded left.status || is_nil_object (top left.stack)) _ _ refl refl
  where
    either :
        (b : Bool) (x y : Reported)
        → x.left.signals ≡ left.signals
        → y.left.signals ≡ left.signals
        → (if b then x else y).left.signals ≡ left.signals
    either true x y e h = e
    either false x y e h = h

restored :
    (s t : Signals)
    → (setsignal (setsignal action s).0 t).1.handlers ≡ alike s.handlers.on_interrupt
unfolding setsignal
restored s t = refl

abbrev pub require_call : Lua → Value → List ℕ → Signals → Called
require_call lua require name s = lua.call require (string name ∷ []) (setsignal action s).1

-- `dolibrary`, with fuel for one round more than the message of an error has bytes: where the call does not
-- fail, the status is 0, the stack is as it was and nothing is written; where it fails, the status is that of
-- the failure, and the error object, for a runtime error what `traceback` made of it, is written with the
-- prefix and taken off the stack, or is nil, and is left there. Afterwards all four signals have the handler that SIGINT had before.
pub dolibrary-Reports :
    (lua : Lua) (fuel attributes : ℕ) (require : Value) (name : List ℕ) (stack : List Value)
    (s : Signals)
    → ((code : ℕ) (e : Value)
        → traced lua (require_call lua require name s).failure ≡ some (code, e)
        → length (message_of lua e) < fuel)
    → Reports lua attributes stack
        (traced lua (require_call lua require name s).failure)
        (dolibrary lua fuel attributes require name stack s)
      × ((dolibrary lua fuel attributes require name stack s).left.signals.handlers
          ≡ alike s.handlers.on_interrupt)
unfolding dolibrary
dolibrary-Reports lua fuel attributes require name stack s enough =
    let called = require_call lua require name s in
    let t : Signals = (setsignal (setsignal action s).0 called.signals).1 in
    subst
      (λ l.
        Reports lua attributes stack (traced lua called.failure) (report lua fuel attributes l)
        × ((report lua fuel attributes l).left.signals.handlers ≡ alike s.handlers.on_interrupt))
      (sym (
        docall-eq lua stack require (string name ∷ []) s true
        ∙ traced_left lua stack called.failure t))
      (
        report-Reports lua fuel attributes stack (traced lua called.failure) t enough,
        ap (λ u. u.handlers) (report-signals lua fuel attributes _) ∙ restored s called.signals,
      )

abbrev pub with_one : Option (ℕ × Value) → Option (ℕ × Value)
with_one none = none
with_one (some (code, e)) = some (0, e)

-- How loading a chunk and calling it fails, with the status 1.
abbrev pub chunk_failure : Lua → Loaded → Signals → Option (ℕ × Value)
chunk_failure lua (unloaded e) s = some (0, e)
chunk_failure lua (loaded f) s =
    with_one (traced lua (lua.call f [] (setsignal action s).1).failure)

load_or_call_lem :
    (lua : Lua) (chunk : Loaded) (stack : List Value) (s : Signals)
    → (t : Signals) × (load_or_call lua chunk stack s
        ≡ left_with
            (
              status_of (chunk_failure lua chunk s),
              stack ++ error_part lua false (chunk_failure lua chunk s),
            )
            t)
load_or_call_lem lua (unloaded e) stack s = (s, refl)
load_or_call_lem lua (loaded f) stack s =
    (_, ap one_left (docall-eq lua stack f [] s true) ∙ go (armed_call lua stack f [] s).failure _)
  where
    one_left : Left → Left
    one_left left = record left { status = if succeeded left.status then 0 else 1 }

    go :
        (failure : Option (ℕ × Value)) (t : Signals)
        → one_left (left_with (status_of failure, stack ++ error_part lua true failure) t)
          ≡ left_with
              (
                status_of (with_one (traced lua failure)),
                stack ++ error_part lua false (with_one (traced lua failure)),
              )
              t
    go none t = refl
    go (some (code, e)) t = refl

-- `dofile` and `dostring`, with fuel for one round more than the message of an error has bytes: where the
-- chunk is loaded and its call does not fail, the status is 0, the stack is as it was and nothing is written;
-- else the status is 1, and the message of loading, or the error object, for a runtime error what `traceback` made of it, is written
-- with the prefix and taken off the stack, or is nil, and is left there.
dofile-Reports :
    (lua : Lua) (fuel attributes : ℕ) (chunk : Loaded) (stack : List Value) (s : Signals)
    → ((code : ℕ) (e : Value)
        → chunk_failure lua chunk s ≡ some (code, e)
        → length (message_of lua e) < fuel)
    → Reports lua attributes stack
        (chunk_failure lua chunk s)
        (dofile lua fuel attributes chunk stack s)
unfolding dofile
dofile-Reports lua fuel attributes chunk stack s enough =
    let (t, same) = load_or_call_lem lua chunk stack s in
    subst
      (λ l. Reports lua attributes stack (chunk_failure lua chunk s) (report lua fuel attributes l))
      (sym same) (report-Reports lua fuel attributes stack (chunk_failure lua chunk s) t enough)
