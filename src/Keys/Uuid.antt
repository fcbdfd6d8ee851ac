-- ===== src/Keys/Uuid.antt =====
-- index.go: UUIDFieldIndex. `none` is an error.
pub mod Print
pub mod RoundTrip
use go_maemmidb.Base.{
  ℕ, ◌+◌, ◌-◌, ◌*◌, ◌%◌, Bool, true, false, not, ◌&&◌, List, [], ◌∷◌, Option, none, some, ◌>>=◌,
  ltb, leb, ◌==◌, if◌then◌else◌, length,
}
use go_maemmidb.Keys.{Text, Key, Value, invalid, text, bytes, Indexed}
use go_maemmidb.Strings.{is_empty_text}

-- '-'
abbrev pub hyphen : ℕ
hyphen = 45

-- strings.Count(s, "-")
unfoldable pub hyphens : Text → ℕ
hyphens [] = 0
hyphens (c ∷ cs) = let rest = hyphens cs in if c == hyphen then rest + 1 else rest

-- strings.Replace(s, "-", "", -1)
unfoldable pub sanitize : Text → Text
sanitize [] = []
sanitize (c ∷ cs) = let rest = sanitize cs in if c == hyphen then rest else c ∷ rest

-- One digit of hex.DecodeString: 0-9, a-f, A-F.
unfoldable pub hex_digit : ℕ → Option ℕ
hex_digit c =
    if leb 48 c && leb c 57
    then some (c - 48)
    else if leb 97 c && leb c 102
    then some (c - 87)
    else if leb 65 c && leb c 70
    then some (c - 55)
    else none

-- hex.DecodeString
unfoldable pub decode_hex : Text → Option Key
unfolding hex_digit
decode_hex [] = some []
decode_hex (c ∷ []) = none
decode_hex (c ∷ d ∷ rest) =
    let later = decode_hex rest in
    hex_digit c >>= λ hi. hex_digit d >>= λ lo. later >>= λ ks. some ((hi * 16 + lo) ∷ ks)

-- parseStringSlow
unfoldable pub parse : Text → Bool → Option Key
unfolding hyphens sanitize decode_hex
parse s enforce_length =
    if enforce_length && not (length s == 36)
    then none
    else if ltb 36 (length s)
    then none
    else if ltb 4 (hyphens s)
    then none
    else if not (length (sanitize s) % 2 == 0)
    then none
    else decode_hex (sanitize s)

-- `buf, err := u.parseString(val, true); return true, buf, err`
unfoldable pub parsed : Option Key → Indexed
parsed none = none
parsed (some k) = some (some k)

unfoldable pub uuid_text : Text → Indexed
unfolding is_empty_text parse parsed
uuid_text s = if is_empty_text s then some none else parsed (parse s true)

-- fromObjectSlow; `described` is what String() gives for a value that is no string
unfoldable pub uuid_object : (Value → Text) → Value → Indexed
unfolding uuid_text
uuid_object described invalid = none
uuid_object described (text s) = uuid_text s
uuid_object described v = uuid_text (described v)

-- fromArgsSlow
unfoldable pub uuid_args : List Value → Option Key
unfolding parse
uuid_args (text s ∷ []) = parse s true
uuid_args (bytes k ∷ []) = if length k == 16 then some k else none
uuid_args _ = none

-- prefixFromArgsSlow
unfoldable pub uuid_prefix_args : List Value → Option Key
unfolding parse
uuid_prefix_args (text s ∷ []) = parse s false
uuid_prefix_args (bytes k ∷ []) = some k
uuid_prefix_args _ = none
