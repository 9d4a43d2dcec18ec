-- ===== src/Wire/Utf8.antt =====
-- `String::from_utf8` of the standard library, and the two validators of
-- crates/cachebox-protocol/src/lib.rs.
use cachebox.Prelude.{
  is_empty, ℕ, ◌<◌, ◌≡◌, refl, Bool, true, false, ◌&&◌, ◌||◌, not, Option, none, some, List, [],
  ◌∷◌, arith, ltb, leb, ◌==◌, if◌then◌else◌,
}
use cachebox.Bytes.{Bytes, Text}

-- The bounds of one byte.
abbrev Span : Type 0
Span = ℕ × ℕ

within : Span → ℕ → Bool
within (low, high) byte = leb low byte && leb byte high

abbrev continuation : Span
continuation = (0x80, 0xbf)

-- The bytes that must follow a leading byte: the table of well-formed sequences.
follow : ℕ → Option (List Span)
unfolding within
follow byte =
    if ltb byte 0x80
    then some []
    else if within (0xc2, 0xdf) byte
    then some (continuation ∷ [])
    else if byte == 0xe0
    then some ((0xa0, 0xbf) ∷ continuation ∷ [])
    else if byte == 0xed
    then some ((0x80, 0x9f) ∷ continuation ∷ [])
    else if within (0xe1, 0xef) byte
    then some (continuation ∷ continuation ∷ [])
    else if byte == 0xf0
    then some ((0x90, 0xbf) ∷ continuation ∷ continuation ∷ [])
    else if within (0xf1, 0xf3) byte
    then some (continuation ∷ continuation ∷ continuation ∷ [])
    else if byte == 0xf4
    then some ((0x80, 0x8f) ∷ continuation ∷ continuation ∷ [])
    else none

utf8_from : List Span → Bytes → Bool
unfolding follow
utf8_from [] [] = true
utf8_from (span ∷ spans) [] = false
utf8_from (span ∷ spans) (byte ∷ bytes) =
    let rest = utf8_from spans bytes in within span byte && rest
utf8_from [] (byte ∷ bytes) = elim (follow byte) [
  | none ↦ false
  | some spans ↦ utf8_from spans bytes
]

unfoldable pub is_utf8 : Bytes → Bool
unfolding utf8_from
is_utf8 bytes = utf8_from [] bytes

-- `u8::is_ascii_alphanumeric`
is_alphanumeric : ℕ → Bool
unfolding within
is_alphanumeric byte =
    within (b'0', b'9') byte || within (b'A', b'Z') byte || within (b'a', b'z') byte

all : (ℕ → Bool) → Bytes → Bool
all p [] = true
all p (byte ∷ bytes) = p byte && all p bytes

namespace_byte : ℕ → Bool
unfolding is_alphanumeric
namespace_byte byte = is_alphanumeric byte || byte == b'-' || byte == b'_'

tag_byte : ℕ → Bool
unfolding is_alphanumeric
tag_byte byte =
    is_alphanumeric byte
    || byte == b'-'
    || byte == b'_'
    || byte == b':'
    || byte == b'.'
    || byte == b'/'

unfoldable pub is_valid_namespace : Text → Bool
unfolding all namespace_byte
is_valid_namespace namespace = not (is_empty namespace) && all namespace_byte namespace

unfoldable pub is_valid_tag : Text → Bool
unfolding all tag_byte
is_valid_tag tag = not (is_empty tag) && all tag_byte tag

-- Bytes below 0x80 are text.
ascii-is_utf8 :
    (p : ℕ → Bool) (bytes : Bytes)
    → ((byte : ℕ) → p byte ≡ true → byte < 0x80)
    → all p bytes ≡ true
    → is_utf8 bytes ≡ true
unfolding is_utf8 all
ascii-is_utf8 p [] low h = refl
ascii-is_utf8 p (byte ∷ bytes) low h = ground (arith, h, low byte, ascii-is_utf8 p bytes low)

namespace_byte-lt : (byte : ℕ) → namespace_byte byte ≡ true → byte < 0x80
unfolding namespace_byte
namespace_byte-lt byte h = ground arith

tag_byte-lt : (byte : ℕ) → tag_byte byte ≡ true → byte < 0x80
unfolding tag_byte
tag_byte-lt byte h = ground arith

-- A valid name of a namespace is valid text, and so is a valid tag.
pub is_utf8-namespace :
    (namespace : Text) → is_valid_namespace namespace ≡ true → is_utf8 namespace ≡ true
unfolding is_valid_namespace
is_utf8-namespace namespace h =
    ascii-is_utf8 namespace_byte namespace namespace_byte-lt (ground arith)

pub is_utf8-tag : (tag : Text) → is_valid_tag tag ≡ true → is_utf8 tag ≡ true
unfolding is_valid_tag
is_utf8-tag tag h = ascii-is_utf8 tag_byte tag tag_byte-lt (ground arith)
