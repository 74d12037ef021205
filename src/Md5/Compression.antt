-- ===== src/Md5/Compression.antt =====
-- md5.c, the 64 unrolled lines of `MD5Transform`: proofs against the table-driven compression of the reference.
use presto_build.Base.{ℕ, ◌+◌, ◌≡◌, refl, ap, ◌∙◌, List, arith}
use native.Mathlib.Nat.{add_comm}
use presto_build.Md5.Word.{u32, f_fun, g_fun, h_fun, i_fun, rotate_left, ff, gg, hh, ii}
use presto_build.Md5.Transform.{
  Regs, Step, row, word_at, round_one, round_two, round_three, round_four, transform,
}
use presto_build.Md5.Reference.{rotate_add, rotate_step, steps, compress}

sum_once : (a f x t : ℕ) → u32 (a + u32 (u32 (f + x) + t)) ≡ u32 (a + f + x + t)
sum_once a f x t = omega arith

module _ (fun : ℕ → ℕ → ℕ → ℕ) (a b c d x s t : ℕ) where
  mix_lem :
      u32 (rotate_left (u32 (a + u32 (u32 (fun b c d + x) + t))) s + b)
      ≡ u32 (b + rotate_left (u32 (a + fun b c d + x + t)) s)
  mix_lem = ap u32 (
      ap (λ (w : ℕ). rotate_left w s + b) (sum_once a (fun b c d) x t)
      ∙ add_comm (rotate_left (u32 (a + fun b c d + x + t)) s) b)

op_ext : {f g : Step} → ((a b c d x s t : ℕ) → f a b c d x s t ≡ g a b c d x s t) → f ≡ g
op_ext h = λ i a b c d x s t. h a b c d x s t i

ff-eq-rotate_add : ff ≡ rotate_add f_fun
ff-eq-rotate_add = op_ext λ a b c d x s t. unfold ff rotate_add in mix_lem f_fun a b c d x s t

gg-eq-rotate_add : gg ≡ rotate_add g_fun
gg-eq-rotate_add = op_ext λ a b c d x s t. unfold gg rotate_add in mix_lem g_fun a b c d x s t

hh-eq-rotate_add : hh ≡ rotate_add h_fun
hh-eq-rotate_add = op_ext λ a b c d x s t. unfold hh rotate_add in mix_lem h_fun a b c d x s t

ii-eq-rotate_add : ii ≡ rotate_add i_fun
ii-eq-rotate_add = op_ext λ a b c d x s t. unfold ii rotate_add in mix_lem i_fun a b c d x s t

-- One row of four lines is four steps of the rotating form.
row_steps :
    (fun : ℕ → ℕ → ℕ → ℕ) (x : ℕ → ℕ) (s1 s2 s3 s4 : ℕ) (r : Regs) (k1 t1 k2 t2 k3 t3 k4 t4 : ℕ)
    → row (rotate_add fun) x s1 s2 s3 s4 r k1 t1 k2 t2 k3 t3 k4 t4
      ≡ rotate_step fun (x k4) s4 t4 (
          rotate_step fun
            (x k3)
            s3
            t3
            (rotate_step fun (x k2) s2 t2 (rotate_step fun (x k1) s1 t1 r)))
unfolding row rotate_step
row_steps fun x s1 s2 s3 s4 r k1 t1 k2 t2 k3 t3 k4 t4 = refl

module _ (block : List ℕ) (r : Regs) where
  round_one-steps : round_one (word_at block) r ≡ steps 16 0 block r
  unfolding round_one steps
  round_one-steps = rw ff-eq-rotate_add (simp row_steps)

  round_two-steps : round_two (word_at block) r ≡ steps 16 16 block r
  unfolding round_two steps
  round_two-steps = rw gg-eq-rotate_add (simp row_steps)

  round_three-steps : round_three (word_at block) r ≡ steps 16 32 block r
  unfolding round_three steps
  round_three-steps = rw hh-eq-rotate_add (simp row_steps)

  round_four-steps : round_four (word_at block) r ≡ steps 16 48 block r
  unfolding round_four steps
  round_four-steps = rw ii-eq-rotate_add (simp row_steps)

module _ (block : List ℕ) (r : Regs) where
  rounds_steps :
      round_four
        (word_at block)
        (round_three (word_at block) (round_two (word_at block) (round_one (word_at block) r)))
      ≡ steps 64 0 block r
  unfolding steps
  rounds_steps = rw (
    round_one-steps block r,
    round_two-steps block (steps 16 0 block r),
    round_three-steps block (steps 16 16 block (steps 16 0 block r)),
    round_four-steps block (steps 16 32 block (steps 16 16 block (steps 16 0 block r))),
  )

abbrev add_regs : Regs → Regs → Regs
add_regs h r = record {
  a = u32 (h.a + r.a);
  b = u32 (h.b + r.b);
  c = u32 (h.c + r.c);
  d = u32 (h.d + r.d);
}

-- `MD5Transform` is the reference's compression, for every state and every block.
pub transform-eq-compress : (buf : Regs) (block : List ℕ) → transform buf block ≡ compress buf block
unfolding transform compress
transform-eq-compress buf block = ap (add_regs buf) (rounds_steps block buf)
