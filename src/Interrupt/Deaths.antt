-- ===== src/Interrupt/Deaths.antt =====
-- make.cpp: proofs on the signals that the process survives while Lua code runs.
use mathlib.Core.List.{Memᴰ}
use mathlib.Core.List.Memᴰ
use presto_build.Base.{◌≡◌, ◌≢◌, ◌⊎◌, inl, inr, refl, sym, ◌∙◌, List, [], ◌∷◌, true, false}
use presto_build.Interrupt.{
  Signal, abort, stop, terminate, interrupt, Handler, default, action, Handlers, Signals,
  handler_of, set_handler, setsignal, laction, lstop, Host, running, raising, killed, Reach, begin,
  came, died, stopped, caught,
}

-- The handlers that docall sets.
abbrev pub armed : Signals → Signals
armed s = (setsignal action s).1

-- A handler is written for one signal only.
handler_of-set :
    (i k : Signal) (h : Handler) (hs : Handlers)
    → ((i ≡ k) × (handler_of k (set_handler i h hs) ≡ h))
      ⊎ ((i ≢ k) × (handler_of k (set_handler i h hs) ≡ handler_of k hs))
handler_of-set abort abort h hs = inl (refl, refl)
handler_of-set abort stop h hs = inr ((λ e. cc), refl)
handler_of-set abort terminate h hs = inr ((λ e. cc), refl)
handler_of-set abort interrupt h hs = inr ((λ e. cc), refl)
handler_of-set stop abort h hs = inr ((λ e. cc), refl)
handler_of-set stop stop h hs = inl (refl, refl)
handler_of-set stop terminate h hs = inr ((λ e. cc), refl)
handler_of-set stop interrupt h hs = inr ((λ e. cc), refl)
handler_of-set terminate abort h hs = inr ((λ e. cc), refl)
handler_of-set terminate stop h hs = inr ((λ e. cc), refl)
handler_of-set terminate terminate h hs = inl (refl, refl)
handler_of-set terminate interrupt h hs = inr ((λ e. cc), refl)
handler_of-set interrupt abort h hs = inr ((λ e. cc), refl)
handler_of-set interrupt stop h hs = inr ((λ e. cc), refl)
handler_of-set interrupt terminate h hs = inr ((λ e. cc), refl)
handler_of-set interrupt interrupt h hs = inl (refl, refl)

-- Each signal that came has the default action again, and each other one has `laction`.
abbrev Knows : List Signal → Signals → Type 0
Knows got s =
    (k : Signal)
    → (Memᴰ k got × (handler_of k s.handlers ≡ default))
      ⊎ ((Memᴰ k got → ⊥) × (handler_of k s.handlers ≡ action))

-- The hook is set only once a signal came; an error goes through the code only after one.
abbrev KnowsAll : List Signal → Host → Type 0
KnowsAll got (running s) = Knows got s × (s.hook ≡ true → got ≢ [])
KnowsAll got (raising s) = Knows got s × (got ≢ []) × (s.hook ≡ false)
KnowsAll got killed = (k : Signal) × (rest : List Signal) × (got ≡ k ∷ rest) × Memᴰ k rest

armed-Knows : (s : Signals) → Knows [] (armed s)
unfolding setsignal
armed-Knows s abort = inr ((λ m. Memᴰ.not-nil m), refl)
armed-Knows s stop = inr ((λ m. Memᴰ.not-nil m), refl)
armed-Knows s terminate = inr ((λ m. Memᴰ.not-nil m), refl)
armed-Knows s interrupt = inr ((λ m. Memᴰ.not-nil m), refl)

laction-Knows :
    (i : Signal) (got : List Signal) (s : Signals) → Knows got s → Knows (i ∷ got) (laction i s)
unfolding laction
laction-Knows i got s knows k = elim (handler_of-set i k default s.handlers) [
  | inl (same, now) ↦ inl (Memᴰ.head (sym same), now)
  | inr (ne, now) ↦ elim (knows k) [
    | inl (mem, old) ↦ inl (Memᴰ.tail mem, now ∙ old)
    | inr (new, old) ↦ inr (
      (λ m. elim (Memᴰ.cases_cons m) [ inl same ↦ ne (sym same) | inr more ↦ new more ]),
      now ∙ old,
    )
  ]
]

Reach-KnowsAll :
    (s : Signals)
    → (s.hook ≡ false)
    → (got : List Signal) (p : Host) → Reach (armed s) got p
    → KnowsAll got p
unfolding setsignal laction lstop
Reach-KnowsAll s off got p begin = (armed-Knows s, λ h. cc)
Reach-KnowsAll s off got p (came {got = old} {s = x} i r h) =
    (laction-Knows i old x (Reach-KnowsAll s off old (running x) r).0, λ on e. cc)
Reach-KnowsAll s off got p (died {got = old} {s = x} i r h) =
    elim ((Reach-KnowsAll s off old (running x) r).0 i) [
      | inl (mem, now) ↦ (i, old, refl, mem)
      | inr (new, now) ↦ cc
    ]
Reach-KnowsAll s off got p (stopped {got = old} {s = x} r on) =
    let (knows, some_came) = Reach-KnowsAll s off old (running x) r in (knows, some_came on, refl)
Reach-KnowsAll s off got p (caught {got = old} {s = x} r) =
    let (knows, some_came, clear) = Reach-KnowsAll s off old (raising x) r in
    (knows, λ on. some_came)

-- While Lua code runs under `docall`, from a state without the hook: the process dies only by a signal that
-- came before; a signal that has not come yet is taken by `laction`, which sets the hook, and then the next
-- call, return or instruction raises the error; and the error is raised only once a signal has come.
pub Reach-killed :
    (s : Signals)
    → s.hook ≡ false
    → (got : List Signal)
    → (Reach (armed s) got killed
        → (k : Signal) × (rest : List Signal) × (got ≡ k ∷ rest) × Memᴰ k rest)
      × ((i : Signal) (x : Signals)
          → Reach (armed s) got (running x)
          → (Memᴰ i got → ⊥)
          → Reach (armed s) (i ∷ got) (running (laction i x))
            × Reach (armed s) (i ∷ got) (raising (lstop (laction i x))))
      × ((x : Signals) → Reach (armed s) got (raising x) → got ≢ [])
unfolding laction
Reach-killed s off got = (
  (λ r. Reach-KnowsAll s off got killed r),
  (λ i x r new. elim ((Reach-KnowsAll s off got (running x) r).0 i) [
    | inl (mem, now) ↦ absurd (new mem)
    | inr (fresh, now) ↦ (came i r now, stopped (came i r now) refl)
  ]),
  λ x r. (Reach-KnowsAll s off got (raising x) r).1,
)
