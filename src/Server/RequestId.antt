-- ===== src/Server/RequestId.antt =====
-- internal/requestid: which request ids are safe to echo.
use aegis_llm.Prelude.{
  ℕ, Bool, false, not, ◌&&◌, ◌||◌, Bytes, leb, ltb, ◌==◌, length, all, is_empty, str_eq, trim_space,
  if◌then◌else◌,
}

abbrev pub max_length : ℕ
max_length = 128

-- The bytes that the loop of `Safe` lets pass.
abbrev pub is_safe_byte : ℕ → Bool
is_safe_byte c =
    (leb b'a' c && leb c b'z')
    || (leb b'A' c && leb c b'Z')
    || (leb b'0' c && leb c b'9')
    || c == b'-'
    || c == b'_'
    || c == b'.'
    || c == b':'

-- `Safe`
unfoldable pub safe : Bytes → Bool
unfolding str_eq trim_space
safe id =
    if is_empty id || ltb max_length (length id) || not (str_eq (trim_space id) id)
    then false
    else all is_safe_byte id
