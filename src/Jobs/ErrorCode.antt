-- ===== src/Jobs/ErrorCode.antt =====
-- server/src/foundation.ts: `safeErrorCode`. Texts are code points; `lower` is the platform's
-- `toLowerCase`.
use planipus.Common.{ℕ, Bool, ◌||◌, ◌&&◌, map, leb, ◌==◌, take, if◌then◌else◌}
use planipus.CalendarSync.Json.{Text, codes}

-- What can be thrown: an `Error` with a `code` that is a string, another `Error`, or no `Error`.
pub data Thrown : Type 0 where
  coded : Text → Thrown
  named : Text → Thrown
  other : Thrown

-- [a-z0-9_:-]
abbrev pub is_code_char : ℕ → Bool
is_code_char c =
    (leb b'a' c && leb c b'z') || (leb b'0' c && leb c b'9') || c == b'_' || c == b':' || c == b'-'

replace_unsafe : Text → Text
replace_unsafe text = map (λ c. if is_code_char c then c else b'_') text

unfoldable pub safe_error_code : (Text → Text) → Thrown → Text
unfolding replace_unsafe
safe_error_code lower (coded code) = take 80 (replace_unsafe (lower code))
safe_error_code lower (named name) = take 80 (lower name)
safe_error_code lower other = codes "unknown_error"
