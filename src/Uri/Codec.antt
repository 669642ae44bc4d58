-- ===== src/Uri/Codec.antt =====
-- `encode`, `decode` and `to_hex` of src/lsp/URI.cpp. `decode` throws std::invalid_argument, `none`
-- here, where std::stoi finds no number in the two characters behind a percent sign.
use slang_server_extended.Base.{
  ℕ, ◌+◌, ◌-◌, ◌*◌, ◌/◌, ◌%◌, ◌<◌, Bytes, [], ◌∷◌, ◌++◌, Bool, true, false, ◌||◌, ◌==◌, ltb,
  if◌then◌else◌, Option, none, some, ◌>>=◌, ◌≡◌, refl, arith, All, is_alnum, is_digit, between,
  is_xdigit, is_space, Bool-cases, inl, inr,
}

-- `hex_chars[d]`
unfoldable pub hex_char : ℕ → ℕ
hex_char d = if ltb d 10 then b'0' + d else b'A' + (d - 10)

-- `(c >> 4) & 0xF`, `c & 0xF`
unfoldable pub to_hex : ℕ → Bytes
unfolding hex_char
to_hex c = hex_char (c / 16 % 16) ∷ hex_char (c % 16) ∷ []

abbrev pub is_unreserved : ℕ → Bool
is_unreserved c = is_alnum c || c == b'-' || c == b'.' || c == b'_' || c == b'~' || c == b'/'

unfoldable pub encode : Bytes → Bytes
unfolding to_hex
encode [] = []
encode (c ∷ s) = if is_unreserved c then c ∷ encode s else b'%' ∷ (to_hex c ++ encode s)

unfoldable pub hex_value : ℕ → ℕ
hex_value c = if is_digit c then c - b'0' else if between b'A' b'F' c then c - 55 else c - 87

-- `static_cast<char>(std::stoi(ab, nullptr, 16))` on two characters: leading space and a sign are
-- read over, and what follows the digits is left.
unfoldable pub stoi16 : ℕ → ℕ → Option ℕ
unfolding hex_value
stoi16 a b =
    if is_xdigit a
    then some (if is_xdigit b then hex_value a * 16 + hex_value b else hex_value a)
    else if is_space a || a == b'+'
    then (if is_xdigit b then some (hex_value b) else none)
    else if a == b'-'
    then (if is_xdigit b then some ((256 - hex_value b) % 256) else none)
    else none

-- `i + 2 < s.length()` says that two characters follow.
unfoldable pub decode : Bytes → Option Bytes
unfolding stoi16
decode (c ∷ a ∷ b ∷ s) =
    let coded = stoi16 a b >>= (λ v. decode s >>= (λ r. some (v ∷ r))) in
    let plain = decode (a ∷ b ∷ s) >>= (λ r. some (c ∷ r)) in if c == b'%' then coded else plain
decode s = some s

abbrev pub IsByte : ℕ → Type 0
IsByte c = c < 256

stoi16-hex_char : (x y : ℕ) → x < 16 → y < 16 → stoi16 (hex_char x) (hex_char y) ≡ some (x * 16 + y)
unfolding stoi16 hex_char
stoi16-hex_char x y hx hy = ground arith

decode_plain :
    (c : ℕ) (s r : Bytes) → (c == b'%') ≡ false → decode s ≡ some r → decode (c ∷ s) ≡ some (c ∷ r)
unfolding decode
decode_plain c [] r h e = ground arith
decode_plain c (a ∷ []) r h e = ground arith
decode_plain c (a ∷ b ∷ s) r h e = rw (h, e)

decode_coded :
    (a b v : ℕ) (s r : Bytes)
    → stoi16 a b ≡ some v
    → decode s ≡ some r
    → decode (b'%' ∷ a ∷ b ∷ s) ≡ some (v ∷ r)
unfolding decode
decode_coded a b v s r h e = rw (h, e)

to_hex_value : (c : ℕ) → c < 256 → c / 16 % 16 * 16 + c % 16 ≡ c
to_hex_value c h = omega arith

encode_step :
    (c : ℕ) (s : Bytes)
    → c < 256
    → decode (encode s) ≡ some s
    → decode (encode (c ∷ s)) ≡ some (c ∷ s)
unfolding encode
encode_step c s h e = elim (Bool-cases (is_unreserved c)) [
  | inl safe ↦ rw safe (decode_plain c (encode s) s (ground arith) e)
  | inr unsafe ↦ rw unsafe (
      decode_coded _ _ c (encode s) s
        (rw (stoi16-hex_char (c / 16 % 16) (c % 16) (omega arith) (omega arith), to_hex_value c h))
        e)
]

-- Decoding an encoded text gives the text back, for every sequence of bytes: `decode` throws on no
-- output of `encode`.
pub decode-encode : (s : Bytes) → All IsByte s → decode (encode s) ≡ some s
decode-encode [] h = unfold encode decode in refl
decode-encode (c ∷ s) (hc, hs) = encode_step c s hc (decode-encode s hs)

abbrev pub IsUriChar : ℕ → Type 0
IsUriChar c = (is_unreserved c || c == b'%') ≡ true

hex_char-IsUriChar : (d : ℕ) → d < 16 → IsUriChar (hex_char d)
unfolding hex_char
hex_char-IsUriChar d h = ground arith

-- Encoded text holds unreserved characters, slashes and percent signs only.
pub encode-IsUriChar : (s : Bytes) → All IsUriChar (encode s)
unfolding encode
encode-IsUriChar [] = tt
encode-IsUriChar (c ∷ s) =
    let rest = encode-IsUriChar s in
    elim (Bool-cases (is_unreserved c)) [
      | inl safe ↦ rw safe (ground arith, rest)
      | inr unsafe ↦ rw unsafe (
        refl,
        (
          hex_char-IsUriChar (c / 16 % 16) (omega arith),
          (hex_char-IsUriChar (c % 16) (omega arith), rest),
        ),
      )
    ]

abbrev pub IsPlain : ℕ → Type 0
IsPlain c = (c == b'%') ≡ false

-- Text with no percent sign is decoded to itself.
pub decode_plain_text : (s : Bytes) → All IsPlain s → decode s ≡ some s
decode_plain_text [] h = unfold decode in refl
decode_plain_text (c ∷ s) (hc, hs) = decode_plain c s s hc (decode_plain_text s hs)
