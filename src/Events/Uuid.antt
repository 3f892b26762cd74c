-- ===== src/Events/Uuid.antt =====
-- events.go, generateShortUUID: the shape of a new event ID.
use Prim.Native.Char.{Char, code}
use Prim.Native.String.{count}
use text.Mathlib.TextLemmas.{length-cons}
use health_go.Base.{
  String, Bool, true, false, ◌&&◌, ◌||◌, List, [], ◌∷◌, ℕ, zero, suc, ◌*◌, ◌+◌, ◌<◌, ◌/◌, ◌%◌, ◌≡◌,
  refl, ◌==◌, ap, arith, eq_iff, leb, all_below, all_below_sound, Bool-cases, inl, inr,
}
use health_go.Base.Lists.{length, take, All}
use health_go.Base.Text.{hex_digit, encode_to_string}
use health_go.Events.{Uuid, generate_short_uuid}

-- what google/uuid documents of `uuid.New`: sixteen bytes
pub record IsUuid (uuid : Uuid) : Type 0 where
  pub sixteen : length uuid ≡ 16
  pub bytes : All (λ b. b < 256) uuid

-- `0` to `9` or `a` to `f`
abbrev pub is_hex_digit : Char → Bool
is_hex_digit c = (leb 48 (code c) && leb (code c) 57) || (leb 97 (code c) && leb (code c) 102)

abbrev pub all_chars : (Char → Bool) → String → Bool
all_chars p String.[] = true
all_chars p (String.◌∷◌ c s) = p c && all_chars p s

-- every value of the table, by evaluation
hex_table : all_below (λ n. is_hex_digit (hex_digit n)) 16 ≡ true
unfolding hex_digit
hex_table = refl

hex_digit-is_hex_digit : (n : ℕ) → n < 16 → is_hex_digit (hex_digit n) ≡ true
hex_digit-is_hex_digit n h = all_below_sound (λ n. is_hex_digit (hex_digit n)) 16 n hex_table h

encode_hex :
    (bs : List ℕ) → All (λ b. b < 256) bs → all_chars is_hex_digit (encode_to_string bs) ≡ true
unfolding encode_to_string
encode_hex [] h = refl
encode_hex (b ∷ bs) h =
    rw
      (
        hex_digit-is_hex_digit (b / 16) (omega (arith, h.0)),
        hex_digit-is_hex_digit (b % 16) (omega arith),
      )
      (encode_hex bs h.1)

encode-count : (bs : List ℕ) → count (encode_to_string bs) ≡ 2 * length bs
unfolding encode_to_string
encode-count [] = refl
encode-count (b ∷ bs) = simp (length-cons, encode-count bs) (omega arith)

take-All : (n : ℕ) (bs : List ℕ) → All (λ b. b < 256) bs → All (λ b. b < 256) (take n bs)
take-All zero bs h = tt
take-All (suc n) [] h = tt
take-All (suc n) (b ∷ bs) h = (h.0, take-All n bs h.1)

length-take_of_le : (n : ℕ) (bs : List ℕ) (m : ℕ) → length bs ≡ n + m → length (take n bs) ≡ n
length-take_of_le zero bs m h = refl
length-take_of_le (suc n) [] m h = absurd (omega arith)
length-take_of_le (suc n) (b ∷ bs) m h = ap suc (length-take_of_le n bs m (omega arith))

-- A new event ID is sixteen hex digits; so it holds no hyphen.
pub generate_short_uuid_shape :
    (uuid : Uuid)
    → IsUuid uuid
    → (count (generate_short_uuid uuid) ≡ 16)
      × (all_chars is_hex_digit (generate_short_uuid uuid) ≡ true)
unfolding generate_short_uuid
generate_short_uuid_shape uuid u = (
  omega (arith, encode-count (take 8 uuid), length-take_of_le 8 uuid 8 u.sixteen),
  encode_hex (take 8 uuid) (take-All 8 uuid u.bytes),
)

-- an ID of sixteen characters is not the empty text
pub short_uuid_nonempty : (uuid : Uuid) → IsUuid uuid → (generate_short_uuid uuid == "") ≡ false
short_uuid_nonempty uuid u = elim (Bool-cases (generate_short_uuid uuid == "")) [
  | inl e ↦ absurd (
      omega (
        arith,
        ap count ((eq_iff (generate_short_uuid uuid) "").0 e),
        (generate_short_uuid_shape uuid u).0,
      ))
  | inr e ↦ e
]
