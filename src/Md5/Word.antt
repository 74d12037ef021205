-- ===== src/Md5/Word.antt =====
-- md5.h `UINT4`, and the macros F, G, H, I, ROTATE_LEFT, FF, GG, HH and II of md5.c. `UINT4` is
-- `unsigned long int`, which has 32 bits on the Windows targets that presto.vcxproj builds.
use presto_build.Base.{ℕ, ◌+◌, ◌-◌, ◌*◌, ◌/◌, ◌%◌, ◌^◌, bit_and, bit_or, bit_xor}

abbrev pub u32 : ℕ → ℕ
u32 n = n % 2 ^ 32

-- `~x` on a 32-bit word.
abbrev pub not32 : ℕ → ℕ
not32 x = bit_xor x 0xffff_ffff

unfoldable pub f_fun : ℕ → ℕ → ℕ → ℕ
f_fun x y z = bit_or (bit_and x y) (bit_and (not32 x) z)

unfoldable pub g_fun : ℕ → ℕ → ℕ → ℕ
g_fun x y z = bit_or (bit_and x z) (bit_and y (not32 z))

unfoldable pub h_fun : ℕ → ℕ → ℕ → ℕ
h_fun x y z = bit_xor (bit_xor x y) z

unfoldable pub i_fun : ℕ → ℕ → ℕ → ℕ
i_fun x y z = bit_xor y (bit_or x (not32 z))

unfoldable pub rotate_left : ℕ → ℕ → ℕ
rotate_left x n = bit_or (u32 (x * 2 ^ n)) (x / 2 ^ (32 - n))

-- The three statements that FF, GG, HH and II share: `a` gets the sum, is rotated, and gets `b`.
abbrev mix : (ℕ → ℕ → ℕ → ℕ) → ℕ → ℕ → ℕ → ℕ → ℕ → ℕ → ℕ → ℕ
mix fun a b c d x s ac =
    let sum = u32 (a + u32 (u32 (fun b c d + x) + ac)) in u32 (rotate_left sum s + b)

-- The value that the macro leaves in its first argument.
unfoldable pub ff : ℕ → ℕ → ℕ → ℕ → ℕ → ℕ → ℕ → ℕ
unfolding f_fun rotate_left
ff a b c d x s ac = mix f_fun a b c d x s ac

unfoldable pub gg : ℕ → ℕ → ℕ → ℕ → ℕ → ℕ → ℕ → ℕ
unfolding g_fun rotate_left
gg a b c d x s ac = mix g_fun a b c d x s ac

unfoldable pub hh : ℕ → ℕ → ℕ → ℕ → ℕ → ℕ → ℕ → ℕ
unfolding h_fun rotate_left
hh a b c d x s ac = mix h_fun a b c d x s ac

unfoldable pub ii : ℕ → ℕ → ℕ → ℕ → ℕ → ℕ → ℕ → ℕ
unfolding i_fun rotate_left
ii a b c d x s ac = mix i_fun a b c d x s ac
