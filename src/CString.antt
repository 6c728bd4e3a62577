-- ===== src/CString.antt =====
-- The calls of the C library on strings: a string is its bytes, with no null byte among them.
use koala_streamer.Prelude.{
  ℕ, ◌+◌, ◌-◌, ◌*◌, ◌≡◌, refl, Bool, true, false, ◌&&◌, ◌||◌, List, [], ◌∷◌, leb, ◌==◌,
  if◌then◌else◌, arith,
}
use koala_streamer.Prelude.Int.{ℤ, pos, negsuc}
use Prim.Native.Char.{code}
use Prim.Native.String.{String}

abbrev pub Bytes : Type 0
Bytes = List ℕ

-- A literal of the source.
abbrev pub bytes : String → Bytes
bytes String.[] = []
bytes (String.◌∷◌ c s) = code c ∷ bytes s

-- tolower in the C locale.
unfoldable pub to_lower : ℕ → ℕ
to_lower c = if leb b'A' c && leb c b'Z' then c + 32 else c

-- strcasecmp(a, b) == 0.
unfoldable pub same_nocase : Bytes → Bytes → Bool
same_nocase [] [] = true
same_nocase (a ∷ as') (b ∷ bs) = (to_lower a == to_lower b) && same_nocase as' bs
same_nocase _ _ = false

-- strncmp(a, b, n) == 0 where b has at least n bytes.
unfoldable pub starts_with : Bytes → Bytes → Bool
starts_with a [] = true
starts_with [] (b ∷ bs) = false
starts_with (a ∷ as') (b ∷ bs) = (a == b) && starts_with as' bs

unfoldable pub is_space : ℕ → Bool
is_space c = c == 32 || leb 9 c && leb c 13

unfoldable pub is_digit : ℕ → Bool
is_digit c = leb b'0' c && leb c b'9'

-- The digits that stand first, read after those that give `n`.
unfoldable pub digits_from : ℕ → Bytes → ℕ
digits_from n [] = n
digits_from n (c ∷ cs) =
    let more = digits_from (n * 10 + (c - b'0')) cs in if is_digit c then more else n

unfoldable pub negate : ℕ → ℤ
negate n = if n == 0 then pos 0 else negsuc (n - 1)

unfoldable pub signed : Bytes → ℤ
signed [] = pos 0
signed (c ∷ cs) =
    if c == b'-'
    then negate (digits_from 0 cs)
    else (if c == b'+' then pos (digits_from 0 cs) else pos (digits_from 0 (c ∷ cs)))

-- atoi, for values that an `int` holds.
unfoldable pub atoi : Bytes → ℤ
unfolding is_space is_digit digits_from negate signed
atoi [] = pos 0
atoi (c ∷ cs) = let rest = atoi cs in if is_space c then rest else signed (c ∷ cs)

-- Comparing without case is an equivalence.
pub same_nocase_refl : (a : Bytes) → same_nocase a a ≡ true
unfolding same_nocase
same_nocase_refl [] = refl
same_nocase_refl (a ∷ as') = ground (arith, same_nocase_refl as')

pub same_nocase_sym : (a b : Bytes) → same_nocase a b ≡ true → same_nocase b a ≡ true
unfolding same_nocase
same_nocase_sym [] [] h = refl
same_nocase_sym [] (b ∷ bs) h = cc
same_nocase_sym (a ∷ as') [] h = cc
same_nocase_sym (a ∷ as') (b ∷ bs) h = ground (arith, same_nocase_sym as' bs)

pub same_nocase_trans :
    (a b c : Bytes) → same_nocase a b ≡ true → same_nocase b c ≡ true → same_nocase a c ≡ true
unfolding same_nocase
same_nocase_trans [] [] c h k = k
same_nocase_trans [] (b ∷ bs) c h k = cc
same_nocase_trans (a ∷ as') [] c h k = cc
same_nocase_trans (a ∷ as') (b ∷ bs) [] h k = cc
same_nocase_trans (a ∷ as') (b ∷ bs) (c ∷ cs) h k = ground (arith, same_nocase_trans as' bs cs)

atoi_reads : atoi (bytes " -250x") ≡ negsuc 249
unfolding atoi
atoi_reads = refl
