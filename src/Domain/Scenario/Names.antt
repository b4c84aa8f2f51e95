-- ===== src/Domain/Scenario/Names.antt =====
-- provider_simulator/domain/scenario.py: which names and values of chosen headers are refused. A text
-- is the list of its codes.
use provider_simulator.Base.{
  ℕ, ◌+◌, ◌*◌, ◌-◌, ◌^◌, String, Bool, true, false, not, ◌&&◌, ◌||◌, List, [], ◌∷◌, map, any, all,
  leb, ltb, nat_eq, if◌then◌else◌, codes,
}
use provider_simulator.Base.Dict.{string_key}
use provider_simulator.Base.Json.{Json, text}

abbrev pub is_digit : ℕ → Bool
is_digit c = leb b'0' c && leb c b'9'

abbrev pub is_letter : ℕ → Bool
is_letter c = leb b'a' c && leb c b'z' || leb b'A' c && leb c b'Z'

-- _CHOSEN_NAME_CHARS
abbrev pub is_name_char : ℕ → Bool
is_name_char c = nat_eq c b'-' || nat_eq c b'_' || nat_eq c b'.' || is_digit c || is_letter c

-- " " <= char <= "~"
abbrev pub is_visible : ℕ → Bool
is_visible c = leb b' ' c && leb c b'~'

-- name.lower(), for the characters of a name
abbrev pub to_lower : ℕ → ℕ
to_lower c = if leb b'A' c && leb c b'Z' then c + 32 else c

abbrev pub lower : List ℕ → List ℕ
lower = map to_lower

abbrev pub codes_eq : List ℕ → List ℕ → Bool
codes_eq [] [] = true
codes_eq (x ∷ xs) (y ∷ ys) = nat_eq x y && codes_eq xs ys
codes_eq _ _ = false

abbrev pub is_member : List ℕ → List (List ℕ) → Bool
is_member name names = any (codes_eq name) names

-- name.endswith("-bin")
abbrev pub ends_with : List ℕ → List ℕ → Bool
ends_with suffix [] = codes_eq [] suffix
ends_with suffix (c ∷ cs) = codes_eq (c ∷ cs) suffix || ends_with suffix cs

unfoldable pub headers_the_simulator_owns : List (List ℕ)
headers_the_simulator_owns =
    codes "connection"
    ∷ codes "content-length"
    ∷ codes "content-type"
    ∷ codes "sec-websocket-accept"
    ∷ codes "transfer-encoding"
    ∷ codes "upgrade"
    ∷ []

unfoldable pub names_the_grpc_library_owns : List (List ℕ)
names_the_grpc_library_owns =
    codes "content-length"
    ∷ codes "content-type"
    ∷ codes "grpc-accept-encoding"
    ∷ codes "grpc-encoding"
    ∷ codes "grpc-internal-encoding-request"
    ∷ codes "grpc-message"
    ∷ codes "grpc-previous-rpc-attempts"
    ∷ codes "grpc-status"
    ∷ codes "grpc-timeout"
    ∷ codes "te"
    ∷ []

-- int(digits)
abbrev pub decimal : ℕ → List ℕ → ℕ
decimal acc [] = acc
decimal acc (c ∷ cs) = decimal (acc * 10 + (c - b'0')) cs

-- [1-9][0-9]*
abbrev pub is_positive_number : List ℕ → Bool
is_positive_number [] = false
is_positive_number (c ∷ cs) = is_digit c && not (nat_eq c b'0') && all is_digit cs

-- _WHOLE_NUMBER.fullmatch(value) and int(value) in _SIGNED_64_BIT. Python refuses to read more than
-- 4300 digits, which is an error of the same class as a value outside the range.
unfoldable pub is_pushback : List ℕ → Bool
is_pushback [] = false
is_pushback (c ∷ cs) =
    if nat_eq c b'-'
    then is_positive_number cs && leb (decimal 0 cs) (2 ^ 63)
    else codes_eq (c ∷ cs) (codes "0")
      || is_positive_number (c ∷ cs) && ltb (decimal 0 (c ∷ cs)) (2 ^ 63)

-- not name or any(char not in _CHOSEN_NAME_CHARS for char in name)
unfoldable pub is_bad_name : List ℕ → Bool
is_bad_name name = codes_eq name [] || any (λ c. not (is_name_char c)) name

-- any(not " " <= char <= "~" for char in value)
unfoldable pub is_bad_value : List ℕ → Bool
is_bad_value value = any (λ c. not (is_visible c)) value

-- A name that another writer of the reply owns; `owned` is whether the field is `reply_headers`.
unfoldable pub is_reserved : Bool → List ℕ → Bool
unfolding headers_the_simulator_owns names_the_grpc_library_owns
is_reserved owned lowered =
    owned && is_member lowered headers_the_simulator_owns
    || is_member lowered names_the_grpc_library_owns
    || ends_with (codes "-bin") lowered

unfoldable pub is_bad_pushback : List ℕ → List ℕ → Bool
unfolding is_pushback
is_bad_pushback lowered value =
    codes_eq lowered (codes "grpc-retry-pushback-ms") && not (is_pushback value)

-- Whether one chosen name and value could not be sent. Every refusal is a `ValueError`.
unfoldable pub is_refused : Bool → String → Json → Bool
is_refused owned name (text value) =
    is_bad_name (codes name)
    || is_bad_value (codes value)
    || is_reserved owned (lower (codes name))
    || is_bad_pushback (lower (codes name)) (codes value)
is_refused owned name value = true
