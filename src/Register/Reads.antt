-- ===== src/Register/Reads.antt =====
-- make.cpp, `set_flag` and `set_max_jobs`: proofs that the state of the command line is what the tables hold.
use presto_build.Base.{
  ℕ, zero, suc, ◌≡◌, ◌⊎◌, inl, inr, refl, sym, ap, ◌∙◌, List, Bool, true, false, ◌==◌, ne→==, arith,
  same_text, none,
}
use presto_build.Lua.{Value, nil, boolean, number, table, Fields, returns, get_field, set_field}
use presto_build.CommandLine.State as Line
use presto_build.CommandLine.State.{
  FlagName, always_make, debug, keep_going, noisy, question, quit, Flags, Slots, State,
}
use presto_build.Register.{
  key_make, key_jobs, key_slots, key_flags, key_goals, flag_key, fields_of, make_field, set_flag,
  set_max_jobs,
}
use presto_build.Register.Lookups.{get_field-set_field, get_field-set_other}

abbrev pub flag_of : FlagName → Flags → Bool
flag_of always_make flags = flags.always_make
flag_of debug flags = flags.debug
flag_of keep_going flags = flags.keep_going
flag_of noisy flags = flags.noisy
flag_of question flags = flags.question
flag_of quit flags = flags.quit

-- A flag that is not there reads as nil, which counts as false.
abbrev pub is_true : Value → Bool
is_true (boolean b) = b
is_true nil = false
is_true _ = true

-- `make.flags` and `make.jobs.slots` hold what the state has, and `make.goals` is nil where it has no goals.
pub record IsRead (globals : Fields) (s : State) : Type 0 where
  pub flags_table :
      (fields : Fields) × (make_field key_flags globals ≡ table fields)
      × ((k : FlagName) → is_true (get_field (flag_key k) fields) ≡ flag_of k s.flags)
  pub jobs_table :
      (fields : Fields) × (make_field key_jobs globals ≡ table fields)
      × (s.slots.negative ≡ false)
      × (get_field key_slots fields ≡ number s.slots.count)
  pub no_goals : s.goals ≡ none → make_field key_goals globals ≡ nil

-- What a write to a flag leaves of each flag.
set_flag_lem :
    (n k : FlagName) (s : State)
    → (((flag_key n) ≡ (flag_key k)) × (flag_of k (Line.set_flag n s).flags ≡ true))
      ⊎ ((same_text (flag_key n) (flag_key k) ≡ false)
          × (flag_of k (Line.set_flag n s).flags ≡ flag_of k s.flags))
unfolding same_text Line.set_flag
set_flag_lem always_make always_make s = inl (refl, refl)
set_flag_lem always_make debug s = inr (refl, refl)
set_flag_lem always_make keep_going s = inr (refl, refl)
set_flag_lem always_make noisy s = inr (refl, refl)
set_flag_lem always_make question s = inr (refl, refl)
set_flag_lem always_make quit s = inr (refl, refl)
set_flag_lem debug always_make s = inr (refl, refl)
set_flag_lem debug debug s = inl (refl, refl)
set_flag_lem debug keep_going s = inr (refl, refl)
set_flag_lem debug noisy s = inr (refl, refl)
set_flag_lem debug question s = inr (refl, refl)
set_flag_lem debug quit s = inr (refl, refl)
set_flag_lem keep_going always_make s = inr (refl, refl)
set_flag_lem keep_going debug s = inr (refl, refl)
set_flag_lem keep_going keep_going s = inl (refl, refl)
set_flag_lem keep_going noisy s = inr (refl, refl)
set_flag_lem keep_going question s = inr (refl, refl)
set_flag_lem keep_going quit s = inr (refl, refl)
set_flag_lem noisy always_make s = inr (refl, refl)
set_flag_lem noisy debug s = inr (refl, refl)
set_flag_lem noisy keep_going s = inr (refl, refl)
set_flag_lem noisy noisy s = inl (refl, refl)
set_flag_lem noisy question s = inr (refl, refl)
set_flag_lem noisy quit s = inr (refl, refl)
set_flag_lem question always_make s = inr (refl, refl)
set_flag_lem question debug s = inr (refl, refl)
set_flag_lem question keep_going s = inr (refl, refl)
set_flag_lem question noisy s = inr (refl, refl)
set_flag_lem question question s = inl (refl, refl)
set_flag_lem question quit s = inr (refl, refl)
set_flag_lem quit always_make s = inr (refl, refl)
set_flag_lem quit debug s = inr (refl, refl)
set_flag_lem quit keep_going s = inr (refl, refl)
set_flag_lem quit noisy s = inr (refl, refl)
set_flag_lem quit question s = inr (refl, refl)
set_flag_lem quit quit s = inl (refl, refl)

set_flag_others :
    (n : FlagName) (s : State)
    → ((Line.set_flag n s).slots ≡ s.slots) × ((Line.set_flag n s).goals ≡ s.goals)
unfolding Line.set_flag
set_flag_others always_make s = (refl, refl)
set_flag_others debug s = (refl, refl)
set_flag_others keep_going s = (refl, refl)
set_flag_others noisy s = (refl, refl)
set_flag_others question s = (refl, refl)
set_flag_others quit s = (refl, refl)

-- A write to a field of `make`.
abbrev written : List ℕ → Value → Fields → Fields
written key v globals =
    set_field key_make (table (set_field key v (fields_of (get_field key_make globals)))) globals

make_field-written :
    (key : List ℕ) (v : Value) (globals : Fields) → make_field key (written key v globals) ≡ v
make_field-written key v globals =
    let make = set_field key v (fields_of (get_field key_make globals)) in
    ap (λ t. get_field key (fields_of t)) (get_field-set_field key_make (table make) globals)
    ∙ get_field-set_field key v (fields_of (get_field key_make globals))

make_field-other :
    (key other : List ℕ) (v : Value) (globals : Fields)
    → same_text other key ≡ false
    → make_field key (written other v globals) ≡ make_field key globals
make_field-other key other v globals ne =
    let make = set_field other v (fields_of (get_field key_make globals)) in
    ap (λ t. get_field key (fields_of t)) (get_field-set_field key_make (table make) globals)
    ∙ get_field-set_other key other v (fields_of (get_field key_make globals)) ne

-- Where the tables hold what the state of the command line has, the write of a switch to `make.flags` finds
-- the table, and afterwards they hold what the state has after the switch.
pub set_flag-IsRead :
    (n : FlagName) (globals : Fields) (s : State)
    → IsRead globals s
    → (after : Fields) × (set_flag n true globals ≡ returns after)
      × IsRead after (Line.set_flag n s)
unfolding set_flag same_text
set_flag-IsRead n globals s r =
    let (fields, is_table, same) = r.flags_table in
    let (jobs, are_jobs, positive, slots) = r.jobs_table in
    let (same_slots, same_goals) = set_flag_others n s in
    let flags = set_field (flag_key n) (boolean true) fields in
    (
      written key_flags (table flags) globals,
      rw is_table refl,
      record {
        flags_table = (
          flags,
          make_field-written key_flags (table flags) globals,
          λ k. elim (set_flag_lem n k s) [
            | inl (e, now) ↦
                ap (λ key. is_true (get_field key flags)) (sym e)
                ∙ ap is_true (get_field-set_field (flag_key n) (boolean true) fields)
                ∙ sym now
            | inr (ne, now) ↦
                ap is_true (get_field-set_other (flag_key k) (flag_key n) (boolean true) fields ne)
                ∙ same k
                ∙ sym now
          ],
        );
        jobs_table = (
          jobs,
          make_field-other key_jobs key_flags (table flags) globals refl ∙ are_jobs,
          ap (λ x. x.negative) same_slots ∙ positive,
          slots ∙ ap (λ x. number x.count) (sym same_slots),
        );
        no_goals = λ none_yet.
            make_field-other key_goals key_flags (table flags) globals refl
            ∙ r.no_goals (sym same_goals ∙ none_yet);
      },
    )

-- A state whose slots are those that were written.
slots_written :
    (count : ℕ) (globals : Fields) (s t : State) (jobs : Fields)
    → IsRead globals s
    → t.flags ≡ s.flags
    → t.goals ≡ s.goals
    → t.slots ≡ record { negative = false; count = count }
    → IsRead (written key_jobs (table (set_field key_slots (number count) jobs)) globals) t
unfolding same_text
slots_written count globals s t jobs r flags goals slots =
    let (fields, is_table, same) = r.flags_table in
    let v = table (set_field key_slots (number count) jobs) in
    record {
      flags_table = (
        fields,
        make_field-other key_flags key_jobs v globals refl ∙ is_table,
        λ k. same k ∙ ap (flag_of k) (sym flags),
      );
      jobs_table = (
        set_field key_slots (number count) jobs,
        make_field-written key_jobs v globals,
        ap (λ x. x.negative) slots,
        get_field-set_field key_slots (number count) jobs ∙ ap (λ x. number x.count) (sym slots),
      );
      no_goals = λ none_yet.
          make_field-other key_goals key_jobs v globals refl ∙ r.no_goals (sym goals ∙ none_yet);
    }

-- Likewise for a number of job slots that is not negative, where 0 stands for 1024 of them.
set_max_jobs-IsRead :
    (max_jobs : ℕ) (globals : Fields) (s : State)
    → IsRead globals s
    → (after : Fields) × (set_max_jobs max_jobs globals ≡ returns after)
      × IsRead after (Line.set_max_jobs (record { negative = false; count = max_jobs }) s)
unfolding set_max_jobs same_text Line.set_max_jobs
set_max_jobs-IsRead zero globals s r =
    let (jobs, are_jobs, positive, slots) = r.jobs_table in
    (_, rw are_jobs refl, slots_written 1024 globals s _ jobs r refl refl refl)
set_max_jobs-IsRead (suc n) globals s r =
    let (jobs, are_jobs, positive, slots) = r.jobs_table in
    let some_slots : (suc n == 0) ≡ false = ne→== (suc n) 0 (λ e. omega arith) in
    (
      written key_jobs (table (set_field key_slots (number (suc n)) jobs)) globals,
      rw are_jobs refl,
      rw some_slots (slots_written (suc n) globals s _ jobs r refl refl refl),
    )
