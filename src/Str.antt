-- ===== src/Str.antt =====
-- Memory and number routines of kernel/lib/string.c. An address stands for a byte; buffers do not
-- wrap round the end of the address space.
use mex_os.Base.{
  ℕ, zero, suc, ◌+◌, ◌-◌, ◌/◌, ◌%◌, Bool, true, false, List, [], ◌∷◌, ◌++◌, if◌then◌else◌, ltb,
  ◌==◌, min, length, replicate, is_negative, ◌*◌,
}
pub mod Memory
mod Decimal
mod Tests

abbrev pub Bytes : Type 0
Bytes = ℕ → ℕ

abbrev pub write : Bytes → ℕ → ℕ → Bytes
write m a v b = if b == a then v else m b

-- `while (len--) *d++ = (uint8_t)val;`
unfoldable pub fill : ℕ → ℕ → ℕ → Bytes → Bytes
fill zero d v m = m
fill (suc n) d v m = fill n (d + 1) v (write m d v)

unfoldable pub memset : ℕ → ℕ → ℕ → Bytes → Bytes
memset dest val len m = fill len dest (val % 256) m

unfoldable pub memcpy : ℕ → ℕ → ℕ → Bytes → Bytes
memcpy dest src zero m = m
memcpy dest src (suc len) m = memcpy (dest + 1) (src + 1) len (write m dest (m src))

-- `while (n && (*d++ = *src++)) n--;`: what is left of `n`, where `d` is, and the memory. The byte 0
-- is copied and not counted.
unfoldable pub copy_text : ℕ → ℕ → ℕ → Bytes → ℕ × ℕ × Bytes
copy_text zero d src m = (0, d, m)
copy_text (suc n) d src m =
    let rest = copy_text n (d + 1) (src + 1) (write m d (m src)) in
    if m src == 0 then (suc n, d + 1, write m d 0) else rest

unfoldable pub strncpy : ℕ → ℕ → ℕ → Bytes → Bytes
strncpy dest src n m = let (left, d, m') = copy_text n dest src m in fill left d 0 m'

-- `while (value > 0 && i < 11)`, with `left` digits of room: the digits, the last one first.
unfoldable pub low_digits : ℕ → ℕ → List ℕ
low_digits zero value = []
low_digits (suc left) value =
    let rest = low_digits left (value / 10) in if value == 0 then [] else (48 + value % 10) ∷ rest

abbrev pub reversed : List ℕ → List ℕ
reversed [] = []
reversed (c ∷ cs) = reversed cs ++ (c ∷ [])

-- The digits in `temp` before the padding. A negative `value`, a pattern from 2 ^ 31 on, has none.
unfoldable pub digits_of : ℕ → List ℕ
digits_of value =
    if value == 0 then 48 ∷ [] else if is_negative value then [] else low_digits 11 value

-- The characters that `int_to_str_pad` writes before the final 0, for a `width` that is not negative.
unfoldable pub int_to_str_pad : ℕ → ℕ → List ℕ
int_to_str_pad value width =
    let temp = digits_of value in reversed (temp ++ replicate (min width 11 - length temp) 48)
