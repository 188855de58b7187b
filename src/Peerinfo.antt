-- ===== src/Peerinfo.antt =====
-- src/dv_spec/subspecs/peerinfo/helpers.py and message.py: git hashes, versions and clock offsets. A
-- time is a number of microseconds, which is the resolution of datetime and timedelta.
pub mod Clock
pub mod GitHash
pub mod Compatible
use distributed_validator_sp.Base.{
  ℕ, zero, suc, ◌+◌, ◌-◌, ◌*◌, ◌/◌, ◌%◌, Bool, true, false, not, ◌&&◌, ◌||◌, Option, none, some,
  List, [], ◌∷◌, ◌++◌, ◌==◌, nat_eq, if◌then◌else◌, ltb, leb, length, all, count, map, ℤ, pos,
  negsuc, sub_ℕ, Result, ok, err, ◌>>=◌, ◌>>◌, guard,
}
use distributed_validator_sp.Types.{Bytes}

pub data PeerinfoError : Type 0 where
  invalid_version no_supported_version invalid_git_hash nickname_too_long : PeerinfoError

-- str.lower() on ASCII. No other character has one of the ASCII characters tested here as lower case.
unfoldable pub lower : ℕ → ℕ
lower char = if leb 65 char && leb char 90 then char + 32 else char

-- [0-9a-f]
unfoldable pub is_hex_char : ℕ → Bool
is_hex_char char = (leb 48 char && leb char 57) || (leb 97 char && leb char 102)

-- ^[0-9a-f]{7}$ from the character reached, with the hex characters still to come. A `$` also
-- matches before a newline that ends the string.
unfoldable pub match_hash : ℕ → Bytes → Bool
unfolding is_hex_char
match_hash zero [] = true
match_hash zero (char ∷ []) = char == 10
match_hash zero (char ∷ next ∷ rest) = false
match_hash (suc left) [] = false
match_hash (suc left) (char ∷ rest) = is_hex_char char && match_hash left rest

unfoldable pub validate_git_hash : Bytes → Bool
unfolding match_hash lower
validate_git_hash git_hash = match_hash 7 (map lower git_hash)

-- The characters of a str, which are the bytes of its encoding that do not continue one.
unfoldable pub str_length : Bytes → ℕ
str_length value = count (λ b. not (leb 128 b && ltb b 192)) value

-- The validators of the message fields git_hash and nickname.
unfoldable pub check_git_hash : Bytes → Result PeerinfoError Bytes
unfolding str_length is_hex_char lower
check_git_hash v = do
  guard (str_length v == 7) invalid_git_hash
  guard (all is_hex_char (map lower v)) invalid_git_hash
  ok (map lower v)

unfoldable pub check_nickname : Option Bytes → Result PeerinfoError (Option Bytes)
unfolding str_length
check_nickname none = ok none
check_nickname (some v) = do guard (leb (str_length v) 32) nickname_too_long; ok (some v)

pub record PeerInfoMsg : Type 0 where
  pub charon_version : Bytes
  pub lock_hash : Bytes
  pub git_hash : Bytes
  pub sent_at : ℕ
  pub started_at : ℕ
  pub builder_api_enabled : Bool
  pub nickname : Option Bytes

-- version.lstrip("v")
unfoldable pub strip_v : Bytes → Bytes
strip_v [] = []
strip_v (char ∷ rest) = if char == 118 then strip_v rest else char ∷ rest

-- What stands before and behind the first separator, the latter if there is one.
unfoldable pub split_once : ℕ → Bytes → Bytes × Option Bytes
split_once separator [] = ([], none)
split_once separator (char ∷ rest) =
    let (front, back) = split_once separator rest in
    if char == separator then ([], some rest) else (char ∷ front, back)

-- text.split(".")
unfoldable pub split_all : Bytes → List Bytes
split_all [] = [] ∷ []
split_all (char ∷ rest) =
    let parts = split_all rest in
    if char == 46
    then [] ∷ parts
    else elim parts [ [] ↦ (char ∷ []) ∷ [] | p ∷ ps ↦ (char ∷ p) ∷ ps ]

unfoldable pub is_digit : ℕ → Bool
is_digit char = leb 48 char && leb char 57

-- The white space that int() skips around an ASCII text.
unfoldable pub is_int_space : ℕ → Bool
is_int_space char = (leb 9 char && leb char 13) || char == 32

-- Digits with single underscores between them, from a place where a digit or, if `inside`, an
-- underscore may stand, and white space up to the end.
unfoldable pub int_digits : Bool → ℕ → Bytes → Option ℕ
unfolding is_digit is_int_space
int_digits inside value [] = if inside then some value else none
int_digits inside value (char ∷ rest) =
    if is_digit char
    then int_digits true (value * 10 + (char - 48)) rest
    else if inside && char == 95
    then int_digits false value rest
    else if inside && all is_int_space (char ∷ rest)
    then some value
    else none

unfoldable pub signed : Bool → Option ℕ → Option ℤ
signed negative none = none
signed negative (some n) = some (if negative then sub_ℕ 0 n else pos n)

unfoldable pub int_sign : Bytes → Option ℤ
unfolding int_digits signed
int_sign [] = none
int_sign (char ∷ rest) =
    if char == 45
    then signed true (int_digits false 0 rest)
    else if char == 43
    then signed false (int_digits false 0 rest)
    else signed false (int_digits false 0 (char ∷ rest))

unfoldable pub skip_space : Bytes → Bytes
unfolding is_int_space
skip_space [] = []
skip_space (char ∷ rest) = if is_int_space char then skip_space rest else char ∷ rest

-- int(text) of an ASCII text, with Python's limit on the digits
unfoldable pub parse_int : Bytes → Result PeerinfoError ℤ
unfolding skip_space int_sign is_digit
parse_int text =
    if ltb 4300 (count is_digit text)
    then err invalid_version
    else elim (int_sign (skip_space text)) [ none ↦ err invalid_version | some n ↦ ok n ]

pub record Version : Type 0 where
  pub major : ℤ
  pub minor : ℤ
  pub patch : ℤ
  pub prerelease : Bytes

unfoldable pub version_of : List Bytes → Bytes → Result PeerinfoError Version
unfolding parse_int
version_of [] prerelease = err invalid_version
version_of (a ∷ []) prerelease = err invalid_version
version_of (a ∷ b ∷ rest) prerelease = do
  major ← parse_int a
  minor ← parse_int b
  patch ← elim rest [ [] ↦ ok (pos 0) | c ∷ more ↦ parse_int c ]
  ok (record { major = major; minor = minor; patch = patch; prerelease = prerelease })

unfoldable pub parse_semantic_version : Bytes → Result PeerinfoError Version
unfolding version_of split_all split_once strip_v
parse_semantic_version version =
    let (version_part, rest) = split_once 45 (strip_v version) in
    version_of (split_all version_part) (elim rest [ none ↦ [] | some prerelease ↦ prerelease ])

-- a < b and a == b on integers
unfoldable pub int_ltb : ℤ → ℤ → Bool
int_ltb (pos a) (pos b) = ltb a b
int_ltb (pos a) (negsuc b) = false
int_ltb (negsuc a) (pos b) = true
int_ltb (negsuc a) (negsuc b) = ltb b a

unfoldable pub int_beq : ℤ → ℤ → Bool
int_beq (pos a) (pos b) = a == b
int_beq (pos a) (negsuc b) = false
int_beq (negsuc a) (pos b) = false
int_beq (negsuc a) (negsuc b) = a == b

unfoldable pub same_minor : Version → Version → Bool
unfolding int_beq
same_minor a b = int_beq a.major b.major && int_beq a.minor b.minor

unfoldable pub is_newer : Version → Version → Bool
unfolding int_ltb int_beq
is_newer a b = int_ltb b.major a.major || (int_beq a.major b.major && int_ltb b.minor a.minor)

-- for supported_version in supported_versions
unfoldable pub match_minor : Version → List Bytes → Result PeerinfoError Bool
unfolding parse_semantic_version same_minor
match_minor peer [] = ok false
match_minor peer (supported ∷ rest) = parse_semantic_version supported >>= λ version.
    if same_minor peer version then ok true else match_minor peer rest

-- `supported_versions[0]` raises an IndexError for an empty list.
unfoldable pub compare_versions : Bytes → List Bytes → Result PeerinfoError Bool
unfolding parse_semantic_version is_newer match_minor
compare_versions peer_version supported_versions = do
  peer ← parse_semantic_version peer_version
  latest ← elim supported_versions [
    | [] ↦ err no_supported_version
    | first ∷ rest ↦ parse_semantic_version first
  ]
  if is_newer peer latest then ok true else match_minor peer supported_versions

-- Only a ValueError is caught.
unfoldable pub is_compatible_version : Bytes → List Bytes → Result PeerinfoError Bool
unfolding compare_versions
is_compatible_version peer_version supported_versions =
    elim (compare_versions peer_version supported_versions) [
      | ok compatible ↦ ok compatible
      | err no_supported_version ↦ err no_supported_version
      | err e ↦ ok false
    ]

-- timedelta / 2, which rounds a half microsecond to the even one
unfoldable pub half : ℕ → ℕ
half n = if n % 2 == 0 then n / 2 else if n / 2 % 2 == 0 then n / 2 else n / 2 + 1

-- sent_at - (received_at - rtt / 2)
unfoldable pub calculate_clock_offset : ℕ → ℕ → ℕ → ℤ
unfolding half
calculate_clock_offset sent_at received_at rtt = sub_ℕ (sent_at + half rtt) received_at

unfoldable pub clamp_clock_offset : ℤ → ℕ → ℤ
unfolding int_ltb
clamp_clock_offset offset max_hours =
    let max_offset = max_hours * 3600000000 in
    if int_ltb (pos max_offset) offset
    then pos max_offset
    else if int_ltb offset (sub_ℕ 0 max_offset)
    then sub_ℕ 0 max_offset
    else offset
