-- ===== src/Lutil/Bytes.antt =====
-- `netbytes2uint32` and `uint322netbytes` are inverse to each other, and which strings are too short.
use Prim.Native.Nat.{bit_or}
use mathlib.Core.Path.{ap₂, ◌≡⟨◌⟩◌, ◌∎}
use lua_kcp_skynet.Prelude.{
  ℕ, ◌+◌, ◌*◌, ◌/◌, ◌%◌, ◌^◌, ◌<◌, ◌≡◌, refl, ap, ◌∙◌, ◌↔◌, List, [], ◌∷◌, none, some, length,
  arith,
}
use lua_kcp_skynet.Prelude.Int.{ℤ, pos}
use lua_kcp_skynet.Prelude.Word.{u32, u32-lt, shl32}
use lua_kcp_skynet.Prelude.Bits.{bit_or-shifted}
use lua_kcp_skynet.Lutil.{l_netbytes2uint32, l_uint322netbytes}

abbrev be32 : ℕ → ℕ → ℕ → ℕ → ℕ
be32 a b c d = a * 2 ^ 24 + b * 2 ^ 16 + c * 2 ^ 8 + d

-- The shifts put the bytes side by side, so `|` adds them up.
or_bytes :
    (a b c d : ℕ)
    → a < 256
    → b < 256
    → c < 256
    → d < 256
    → bit_or (bit_or (bit_or (shl32 a 24) (shl32 b 16)) (shl32 c 8)) d ≡ be32 a b c d
or_bytes a b c d ha hb hc hd =
    let a24 : shl32 a 24 ≡ a * 2 ^ 24 = omega arith in
    let b16 : shl32 b 16 ≡ b * 2 ^ 16 = omega arith in
    let c8 : shl32 c 8 ≡ c * 2 ^ 8 = omega arith in
    let two : a * 2 ^ 24 + b * 2 ^ 16 ≡ (a * 256 + b) * 2 ^ 16 = omega arith in
    let three : (a * 256 + b) * 2 ^ 16 + c * 2 ^ 8 ≡ (a * 65536 + b * 256 + c) * 2 ^ 8 =
      omega arith in
    bit_or (bit_or (bit_or (shl32 a 24) (shl32 b 16)) (shl32 c 8)) d
    ≡⟨ ap₂ (λ (x y : ℕ). bit_or (bit_or x y) d) (ap₂ bit_or a24 b16) c8 ⟩
      bit_or (bit_or (bit_or (a * 2 ^ 24) (b * 2 ^ 16)) (c * 2 ^ 8)) d
    ≡⟨ ap (λ (x : ℕ). bit_or (bit_or x (c * 2 ^ 8)) d)
        (bit_or-shifted 24 a (b * 2 ^ 16) (omega arith) ∙ two) ⟩
      bit_or (bit_or ((a * 256 + b) * 2 ^ 16) (c * 2 ^ 8)) d
    ≡⟨ ap (λ (x : ℕ). bit_or x d)
        (bit_or-shifted 16 (a * 256 + b) (c * 2 ^ 8) (omega arith) ∙ three) ⟩
      bit_or ((a * 65536 + b * 256 + c) * 2 ^ 8) d
    ≡⟨ bit_or-shifted 8 (a * 65536 + b * 256 + c) d hd ⟩ (a * 65536 + b * 256 + c) * 2 ^ 8 + d
    ≡⟨ omega arith ⟩ be32 a b c d ∎

-- A string of four bytes or more is read as the big-endian number of its first four.
pub l_netbytes2uint32_lem :
    (a b c d : ℕ) (s : List ℕ)
    → a < 256
    → b < 256
    → c < 256
    → d < 256
    → l_netbytes2uint32 (a ∷ b ∷ c ∷ d ∷ s) ≡ some (be32 a b c d)
unfolding l_netbytes2uint32
l_netbytes2uint32_lem a b c d s ha hb hc hd = ap some (or_bytes a b c d ha hb hc hd)

-- Writing any integer as four bytes and reading them back gives its low 32 bits.
pub l_netbytes2uint32-l_uint322netbytes :
    (n : ℤ) → l_netbytes2uint32 (l_uint322netbytes n) ≡ some (u32 n)
unfolding l_uint322netbytes
l_netbytes2uint32-l_uint322netbytes n =
    l_netbytes2uint32_lem (u32 n / 2 ^ 24 % 256) (u32 n / 2 ^ 16 % 256) (u32 n / 2 ^ 8 % 256)
      (u32 n % 256) [] (omega arith) (omega arith) (omega arith) (omega arith)
    ∙ ap some (four_digits (u32 n) (u32-lt n))
  where
    four_digits :
        (m : ℕ)
        → m < 2 ^ 32
        → be32 (m / 2 ^ 24 % 256) (m / 2 ^ 16 % 256) (m / 2 ^ 8 % 256) (m % 256) ≡ m
    four_digits m h = omega arith

-- Reading four bytes and writing the number back gives the same bytes.
pub l_uint322netbytes-l_netbytes2uint32 :
    (a b c d : ℕ)
    → a < 256
    → b < 256
    → c < 256
    → d < 256
    → (n : ℕ) × (l_netbytes2uint32 (a ∷ b ∷ c ∷ d ∷ []) ≡ some n)
      × (l_uint322netbytes (pos n) ≡ a ∷ b ∷ c ∷ d ∷ [])
unfolding l_uint322netbytes
l_uint322netbytes-l_netbytes2uint32 a b c d ha hb hc hd = (
  be32 a b c d,
  l_netbytes2uint32_lem a b c d [] ha hb hc hd,
  same_bytes (omega arith) (omega arith) (omega arith) (omega arith),
)
  where
    same_bytes :
        {a' b' c' d' : ℕ}
        → a' ≡ a
        → b' ≡ b
        → c' ≡ c
        → d' ≡ d
        → a' ∷ b' ∷ c' ∷ d' ∷ [] ≡ a ∷ b ∷ c ∷ d ∷ []
    same_bytes p q r s = cc

-- The length is not checked: a read past the string's terminating NUL happens exactly when the
-- string has fewer than three bytes.
pub l_netbytes2uint32-none_iff : (s : List ℕ) → (l_netbytes2uint32 s ≡ none) ↔ (length s < 3)
unfolding l_netbytes2uint32
l_netbytes2uint32-none_iff [] = (λ _. omega arith, λ _. refl)
l_netbytes2uint32-none_iff (a ∷ []) = (λ _. omega arith, λ _. refl)
l_netbytes2uint32-none_iff (a ∷ b ∷ []) = (λ _. omega arith, λ _. refl)
l_netbytes2uint32-none_iff (a ∷ b ∷ c ∷ []) = (λ e. cc, λ h. absurd (omega arith))
l_netbytes2uint32-none_iff (a ∷ b ∷ c ∷ d ∷ s) = (λ e. cc, λ h. absurd (omega arith))
