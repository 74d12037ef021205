-- ===== src/Tests/Digests.antt =====
-- Runs of md5.c and of the hex digests of lmakelib.cpp.
use presto_build.Base.{
  ℕ, ◌*◌, ◌≡◌, refl, some, List, [], ◌∷◌, ◌++◌, length, take, drop, replicate, arith,
}
use presto_build.Lua.{LuaApi, string, returns}
use presto_build.Md5.Word.{ff, gg, hh, ii}
use presto_build.Md5.Transform.{row, round_one, round_two, round_three, round_four, transform}
use presto_build.Md5.Context.{
  Context, init, init_regs, update, put_byte, put_bytes, word_from, words_from, mdi_of, pad_len,
  word_bytes, digest_of, final,
}
use presto_build.Md5.Reference.{compress, md5}
use presto_build.Md5.Compression.{transform-eq-compress}
use presto_build.Md5.Holds.{Holds, Holds-init}
use presto_build.Md5.Updates.{update-Holds}
use presto_build.Md5.Final.{final-eq-md5}
use presto_build.Hash.{push_hex, Garbage, make_md5, FileApi, make_file_md5}
use presto_build.Hash.Laws.{read_hex, read_hex-push_hex, make_md5-eq-md5, make_file_md5-eq-make_md5}

abbrev garbage : Garbage
garbage = record { input = replicate 64 0xcc; digest = [] }

abbrev abc : List ℕ
abc = b'a' ∷ b'b' ∷ b'c' ∷ []

abbrev abc_context : Context
abc_context = update (init (replicate 64 0xcc) []) abc

-- The test suite of RFC 1321.
digest_of_abc :
    (final abc_context).digest
    ≡ 0x90 ∷ 0x01 ∷ 0x50 ∷ 0x98 ∷ 0x3c ∷ 0xd2 ∷ 0x4f ∷ 0xb0 ∷ 0xd6 ∷ 0x96 ∷ 0x3f ∷ 0x7d ∷ 0x28
      ∷ 0xe1 ∷ 0x7f ∷ 0x72 ∷ []
unfolding final update put_byte put_bytes word_from words_from mdi_of pad_len word_bytes digest_of
    init transform row round_one round_two round_three round_four ff gg hh ii
digest_of_abc = refl

abc-Holds : Holds abc_context init_regs abc
abc-Holds = update-Holds (Holds-init (replicate 64 0xcc) [] refl) abc (omega arith)

transform-eq-compress_example :
    transform init_regs (replicate 16 7) ≡ compress init_regs (replicate 16 7)
transform-eq-compress_example = transform-eq-compress init_regs (replicate 16 7)

update-Holds_example : Holds (update abc_context abc) init_regs (abc ++ abc)
update-Holds_example = update-Holds abc-Holds abc (omega arith)

final-eq-md5_example : (final abc_context).digest ≡ md5 init_regs abc
final-eq-md5_example = final-eq-md5 abc-Holds

abbrev two_bytes : List ℕ
two_bytes = 0 ∷ 0xaf ∷ []

read_hex-push_hex_example :
    (read_hex (push_hex two_bytes) ≡ two_bytes)
    × (length (push_hex two_bytes) ≡ 2 * length two_bytes)
read_hex-push_hex_example = read_hex-push_hex two_bytes (omega arith)

abbrev api : LuaApi
api = record { number_text = λ v. b'1' ∷ [] }

make_md5-eq-md5_example :
    make_md5 api garbage (string abc ∷ []) ≡ returns (string (push_hex (md5 init_regs abc)) ∷ [])
make_md5-eq-md5_example = make_md5-eq-md5 api garbage abc refl (omega arith)

-- A file system whose files all hold the same three bytes.
abbrev abc_files : FileApi
abc_files = record {
  Handle = List ℕ;
  open_file = λ path. some abc;
  read_file = λ handle n. (take n handle, drop n handle);
}

make_file_md5-eq-make_md5_example :
    make_file_md5 abc_files 1 garbage (b'f' ∷ []) ≡ some (make_md5 api garbage (string abc ∷ []))
make_file_md5-eq-make_md5_example =
    make_file_md5-eq-make_md5 abc_files (λ handle. handle) (λ handle n. (refl, refl)) api garbage
      (b'f' ∷ []) abc 1 refl refl (omega arith) (omega arith)
