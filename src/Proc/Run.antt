-- ===== src/Proc/Run.antt =====
-- lua/mkinit.lua `make.run`, on a process that was started. Each element of a list of answers is what the
-- operating system answers to the calls of one make.proc.flushio, which follows a resume of the coroutine.
use presto_build.Base.{ℕ, List, [], ◌∷◌, ◌==◌, if◌then◌else◌, true}
use presto_build.Lua.{Value, number}
use presto_build.Proc.Flush.{
  Process, Io, Flush, finished, error_raised, overran, blocked, flushio, exit_code,
}

-- How it comes to rest: it returns, raises the error of an exit code, has yielded its process and is not
-- resumed, or is inside of make.proc.flushio, which does not come back.
pub data Ran : Type 0 where
  ran_well : Process → Ran
  exits_with : ℕ → Process → Ran
  yields : Process → Ran
  not_back : Flush → Ran

-- What follows make.proc.flushio.
abbrev pub after_flush : (Process → Ran) → Flush → Ran
after_flush rest (finished p) = rest p
after_flush rest (error_raised p) = not_back (error_raised p)
after_flush rest overran = not_back overran
after_flush rest blocked = not_back blocked

-- `while exit_code == nil`, and the test of the exit code behind it.
abbrev pub by_code : Value → Process → Ran → Ran
by_code (number n) p rest = if n == 0 then ran_well p else exits_with n p
by_code v p rest = rest

unfoldable pub make_run : ℕ → List (List Io) → Process → Ran
make_run code [] p = by_code (exit_code p) p (yields p)
make_run code (answers ∷ later) p =
    by_code (exit_code p) p (after_flush (make_run code later) (flushio true code answers p))
