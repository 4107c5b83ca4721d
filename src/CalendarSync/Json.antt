-- ===== src/CalendarSync/Json.antt =====
-- packages/calendar-sync/src/types.ts (`JsonValue`) and canonical.ts. A number is a natural number, a negative
-- integer, or one that is no integer at all. A string holds no lone surrogates.
use Prim.Native.Char.{code}
use Prim.Native.String
use planipus.Common.{
  ℕ, zero, suc, ◌+◌, ◌-◌, ◌/◌, ◌%◌, ◌^◌, ◌≡◌, refl, String, Option, none, some, Bool, true, false,
  ◌&&◌, ◌||◌, List, [], ◌∷◌, ◌++◌, map, ltb, leb, ◌==◌, str_eq, if◌then◌else◌, any, Result, ok, err,
  ◌>>=◌,
}
use planipus.Common.Sorting.{sort}

mutual
  pub data JsonValue : Type 0 where
    null : JsonValue
    bool : Bool → JsonValue
    num : ℕ → JsonValue
    negative : ℕ → JsonValue
    not_integer : JsonValue
    str : String → JsonValue
    arr : Items → JsonValue
    obj : Members → JsonValue

  pub data Items : Type 0 where
    no_items : Items
    item : JsonValue → Items → Items

  pub data Members : Type 0 where
    no_members : Members
    member : String → JsonValue → Members → Members

-- `value[key]`
unfoldable pub lookup_member : String → Members → Option JsonValue
lookup_member k no_members = none
lookup_member k (member j v ms) = if str_eq j k then some v else lookup_member k ms

-- The `TypeError`s of canonical.ts.
pub data JsonError : Type 0 where
  unsafe_number duplicate_keys : JsonError

-- Text that is written, as code points.
abbrev pub Text : Type 0
Text = List ℕ

abbrev pub codes : String → Text
codes String.[] = []
codes (String.◌∷◌ c s) = code c ∷ codes s

-- The decimal digits of a number below 10 ^ fuel, in front of `rest`.
unfoldable pub decimal : ℕ → ℕ → Text → Text
decimal zero n rest = rest
decimal (suc fuel) n rest =
    let digit = 48 + n % 10 in
    let more = decimal fuel (n / 10) (digit ∷ rest) in if n / 10 == 0 then digit ∷ rest else more

abbrev pub max_safe_integer : ℕ
max_safe_integer = 2 ^ 53 - 1

-- A safe integer has 16 digits at most.
canonical_number : ℕ → Result JsonError Text
unfolding decimal
canonical_number n = if leb n max_safe_integer then ok (decimal 16 n []) else err unsafe_number

hex_digit : ℕ → ℕ
hex_digit n = if ltb n 10 then 48 + n else 87 + n

-- How `JSON.stringify` writes one code point inside quotes.
escape_char : ℕ → Text
unfolding hex_digit
escape_char c =
    if c == b'"'
    then b'\\' ∷ b'"' ∷ []
    else if c == b'\\'
    then b'\\' ∷ b'\\' ∷ []
    else if c == 8
    then b'\\' ∷ b'b' ∷ []
    else if c == 12
    then b'\\' ∷ b'f' ∷ []
    else if c == 10
    then b'\\' ∷ b'n' ∷ []
    else if c == 13
    then b'\\' ∷ b'r' ∷ []
    else if c == 9
    then b'\\' ∷ b't' ∷ []
    else if ltb c 32
    then b'\\' ∷ b'u' ∷ b'0' ∷ b'0' ∷ hex_digit (c / 16) ∷ hex_digit (c % 16) ∷ []
    else c ∷ []

escape : Text → Text
unfolding escape_char
escape [] = []
escape (c ∷ cs) = escape_char c ++ escape cs

unfoldable pub quote : String → Text
unfolding escape
quote s = b'"' ∷ (escape (codes s) ++ b'"' ∷ [])

-- The UTF-16 code units of a text, by which JavaScript compares strings.
unfoldable pub utf16 : Text → List ℕ
utf16 [] = []
utf16 (c ∷ cs) =
    if ltb c 65536
    then c ∷ utf16 cs
    else (55296 + (c - 65536) / 1024) ∷ (56320 + (c - 65536) % 1024) ∷ utf16 cs

unfoldable pub units_le : List ℕ → List ℕ → Bool
units_le [] ys = true
units_le (x ∷ xs) [] = false
units_le (x ∷ xs) (y ∷ ys) = ltb x y || (x == y && units_le xs ys)

-- `left <= right` on strings
unfoldable pub text_le : String → String → Bool
unfolding units_le utf16
text_le s t = units_le (utf16 (codes s)) (utf16 (codes t))

has_duplicates : List (String × Text) → Bool
has_duplicates [] = false
has_duplicates ((k, _) ∷ ms) = any (λ m. str_eq k m.0) ms || has_duplicates ms

-- `parts.join(",")`
join : List Text → Text
join [] = []
join (t ∷ []) = t
join (t ∷ u ∷ ts) = t ++ (b',' ∷ join (u ∷ ts))

render_member : String × Text → Text
unfolding quote
render_member (k, v) = quote k ++ (b':' ∷ v)

-- The members are rendered before they are checked and sorted; each error is a `TypeError`.
render_object : List (String × Text) → Result JsonError Text
unfolding has_duplicates join render_member text_le sort
render_object ms =
    if has_duplicates ms
    then err duplicate_keys
    else ok (b'{' ∷ (join (map render_member (sort (λ a b. text_le a.0 b.0) ms)) ++ b'}' ∷ []))

-- `nfc` is the platform's `String.prototype.normalize("NFC")`.
module _ (nfc : String → String) where
  unfoldable mutual
    unfolding canonical_number quote render_object join

    pub canonicalize_json : JsonValue → Result JsonError Text
    canonicalize_json null = ok (codes "null")
    canonicalize_json (bool true) = ok (codes "true")
    canonicalize_json (bool false) = ok (codes "false")
    canonicalize_json (num n) = canonical_number n
    canonicalize_json (negative n) = do digits ← canonical_number (n + 1); ok (b'-' ∷ digits)
    canonicalize_json not_integer = err unsafe_number
    canonicalize_json (str s) = ok (quote (nfc s))
    canonicalize_json (arr xs) = do
      parts ← canonicalize_items xs
      ok (b'[' ∷ (join parts ++ b']' ∷ []))
    canonicalize_json (obj ms) = do parts ← canonicalize_members ms; render_object parts

    pub canonicalize_items : Items → Result JsonError (List Text)
    canonicalize_items no_items = ok []
    canonicalize_items (item v vs) = do
      first ← canonicalize_json v
      rest ← canonicalize_items vs
      ok (first ∷ rest)

    pub canonicalize_members : Members → Result JsonError (List (String × Text))
    canonicalize_members no_members = ok []
    canonicalize_members (member k v ms) = do
      first ← canonicalize_json v
      rest ← canonicalize_members ms
      ok ((nfc k, first) ∷ rest)

  -- `sha256` is the hex digest of node's `createHash`.
  unfoldable pub sha256_canonical : (Text → String) → JsonValue → Result JsonError String
  unfolding canonicalize_json
  sha256_canonical sha256 value = do
    text ← canonicalize_json value
    ok (String.◌++◌ "sha256:" (sha256 text))

canonical_test :
    canonicalize_json
      (λ s. s)
      (obj
        (member "b" (num 2) (member "a" (arr (item null (item (str "x\n") no_items))) no_members)))
    ≡ ok (codes "{\"a\":[null,\"x\\n\"],\"b\":2}")
unfolding canonicalize_json
canonical_test = refl
