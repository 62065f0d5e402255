-- ===== src/Tests/Bitmaps.antt =====
-- Instances of the theorems on util/kv_util.h and util/kv_bitmap.cpp.
use nvmkv.Prelude.{◌≡◌, ◌||◌, [], ◌∷◌, some, arith, ◌==◌, refl}
use nvmkv.Util.{round32, bits_per_uint32}
use nvmkv.Bitmap.{KvBitmap, bitmap_set, bitmap_ffa, bitmap_ffc}
use nvmkv.Bitmap.Access.{member, member-bitmap_set}
use nvmkv.Bitmap.Search.{Holds, TakesFirstClear, bitmap_ffa-TakesFirstClear, bitmap_ffc-eq-ffa}

abbrev two_words : KvBitmap
two_words = 0xffffffff ∷ 5 ∷ []

two_words-Holds : Holds two_words 64
unfolding round32 bits_per_uint32
two_words-Holds = (omega arith, omega arith)

ffa_run : bitmap_ffa two_words 64 ≡ (some 33, 0xffffffff ∷ 7 ∷ [])
unfolding bitmap_ffa
ffa_run = refl

bitmap_ffa-TakesFirstClear_example : TakesFirstClear two_words 64 (bitmap_ffa two_words 64)
bitmap_ffa-TakesFirstClear_example = bitmap_ffa-TakesFirstClear two_words 64 two_words-Holds

bitmap_ffc-eq-ffa_example : bitmap_ffc two_words 64 ≡ (bitmap_ffa two_words 64).0
bitmap_ffc-eq-ffa_example = bitmap_ffc-eq-ffa two_words 64

member-bitmap_set_example : member (bitmap_set two_words 33) 40 ≡ (33 == 40 || member two_words 40)
member-bitmap_set_example = member-bitmap_set two_words 33 40 (omega arith)
