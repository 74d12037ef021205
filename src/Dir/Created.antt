-- ===== src/Dir/Created.antt =====
-- What make.dir.md creates, and where it does not return.
use presto_build.Base.{
  ℕ, zero, suc, ◌+◌, ◌<◌, ◌≡◌, inl, inr, refl, ap, ◌∙◌, List, Bool, true, false, Bool-cases, Option,
  none, some, arith,
}
use presto_build.Dir.{DirCalls, then_create, make_dirs}

module _ (dirs : DirCalls) where
  open dirs use {FileSystem, parent, is_directory, create_directory}

  -- The parent so many steps up.
  abbrev pub up : ℕ → List ℕ → List ℕ
  up zero path = path
  up (suc n) path = up n (parent path)

  up-parent : (n : ℕ) (path : List ℕ) → parent (up n path) ≡ up n (parent path)
  up-parent zero path = refl
  up-parent (suc n) path = up-parent n (parent path)

  -- What the creation of a directory has done: it is one, as all are that were; none of the paths below it on the
  -- way has come to be one under another spelling.
  pub record IsMade (path : List ℕ) (i : ℕ) (s t : FileSystem) : Type 0 where
    pub made : is_directory (up i path) t ≡ true
    pub kept : (other : List ℕ) → is_directory other s ≡ true → is_directory other t ≡ true
    pub below :
        (j : ℕ) → j < i → is_directory (up j path) s ≡ false → is_directory (up j path) t ≡ false

  -- In the states that `Good` holds of, CreateDirectoryW makes a directory of each of the first `n` paths on the
  -- way up whose parent is one; and `Good` holds afterwards.
  abbrev pub Creates : (FileSystem → Type 0) → ℕ → List ℕ → Type 0
  Creates Good n path =
      (i : ℕ)
      → i < n
      → (s : FileSystem) → Good s
      → is_directory (parent (up i path)) s ≡ true
      → is_directory (up i path) s ≡ false
      → ((create_directory (up i path) s).0 ≡ true)
        × Good (create_directory (up i path) s).1
        × IsMade path i s (create_directory (up i path) s).1

  -- What `__make_dir_md` has done on a path on the way up.
  abbrev Done :
      (FileSystem → Type 0) → List ℕ → ℕ → FileSystem → Option (Bool × FileSystem) → Type 0
  Done Good path i s result =
      (t : FileSystem) × (result ≡ some (true, t)) × Good t × IsMade path i s t

  module _ (Good : FileSystem → Type 0) (path : List ℕ) where
    there : (i : ℕ) (s : FileSystem) → is_directory (up i path) s ≡ true → IsMade path i s s
    there i s e = record { made = e; kept = λ other f. f; below = λ j lt f. f }

    create-Done :
        (n i : ℕ)
        → Creates Good n path
        → i < n
        → (s : FileSystem) → is_directory (up i path) s ≡ false
        → (result : Option (Bool × FileSystem)) → Done Good path (suc i) s result
        → Done Good path i s (then_create dirs (up i path) result)
    create-Done n i creates lt s missing result (t, ran, good, above) =
        let parent_there : is_directory (parent (up i path)) t ≡ true =
          ap (λ p. is_directory p t) (up-parent i path) ∙ above.made in
        let (ok, good', is) =
          creates i lt t good parent_there (above.below i (omega arith) missing) in
        let u = (create_directory (up i path) t).1 in
        (
          u,
          ap (then_create dirs (up i path)) ran ∙ ap (λ b. some (b, u)) ok,
          good',
          record {
            made = is.made;
            kept = λ other e. is.kept other (above.kept other e);
            below = λ j less e. is.below j less (above.below j (omega (arith, less)) e);
          },
        )

    make_dirs_lem :
        (n : ℕ)
        → Creates Good n path
        → (m i : ℕ) → i + m ≡ n
        → (s : FileSystem) → Good s
        → is_directory (up n path) s ≡ true
        → Done Good path i s (make_dirs dirs (suc m) (up i path) s)
    unfolding make_dirs
    make_dirs_lem n creates zero i same s good h =
        let top : i ≡ n = omega (arith, same) in
        let e : is_directory (up i path) s ≡ true =
          ap (λ (k : ℕ). is_directory (up k path) s) top ∙ h in
        rw e (s, refl, good, there i s e)
    make_dirs_lem n creates (suc m) i same s good h =
        elim (Bool-cases (is_directory (up i path) s)) [
          | inl e ↦ rw e (s, refl, good, there i s e)
          | inr e ↦
              rw (e, up-parent i path)
                (create-Done n i creates (omega (arith, same)) s e
                  (make_dirs dirs (suc m) (up (suc i) path) s)
                  (make_dirs_lem n creates m (suc i) (omega (arith, same)) s good h))
        ]

    -- Where a path some number of steps up is a directory, and CreateDirectoryW makes one of each path on the
    -- way whose parent is one, keeps what is a directory, makes no path below on the way a directory under
    -- another spelling, and leaves a state of the same kind: with fuel for one call more than those steps,
    -- `__make_dir_md` returns true, the path is a directory then, and every directory is one still.
    pub make_dirs-IsMade :
        (n : ℕ)
        → Creates Good n path
        → (s : FileSystem) → Good s
        → is_directory (up n path) s ≡ true
        → (t : FileSystem) × (make_dirs dirs (suc n) path s ≡ some (true, t))
          × Good t
          × (is_directory path t ≡ true)
          × ((other : List ℕ) → is_directory other s ≡ true → is_directory other t ≡ true)
    make_dirs-IsMade n creates s good h =
        let (t, ran, good', is) = make_dirs_lem n creates n 0 (omega arith) s good h in
        (t, ran, good', is.made, is.kept)

  -- Where no path on the way up is a directory, as for a relative name, whose parent is the empty path:
  -- `__make_dir_md` never returns, no fuel is enough.
  pub make_dirs_loops :
      (fuel : ℕ) (path : List ℕ) (s : FileSystem)
      → ((n : ℕ) → is_directory (up n path) s ≡ false)
      → make_dirs dirs fuel path s ≡ none
  unfolding make_dirs
  make_dirs_loops zero path s none_above = refl
  make_dirs_loops (suc fuel) path s none_above =
      rw (none_above 0) (
        ap (then_create dirs path) (make_dirs_loops fuel (parent path) s (λ n. none_above (suc n))))
