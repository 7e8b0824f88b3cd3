-- ===== src/Prelude/Hash.antt =====
-- The 32-bit hash of a text that several parts compute in place.
use Prim.Native.Nat.{ℕ, ◌+◌, ◌*◌, ◌-◌, ◌/◌, ◌%◌}
use Prim.Native.String.{String}
use Prim.Native.String as Text
use Prim.Native.Char.{code}
use synpeer.Prelude.Bools.{ltb, leb, if◌then◌else◌}

-- `hash = (hash << 5) - hash + char; hash = hash & hash`: the wrapped value, from 0 to 2 ^ 32 - 1.
unfoldable pub hash_unit : ℕ → ℕ → ℕ
hash_unit h unit = (31 * h + unit) % 4294967296

-- `charCodeAt` reads UTF-16 units, of which a character from 65536 on has two.
unfoldable pub hash_char : ℕ → ℕ → ℕ
unfolding hash_unit
hash_char h c =
    if ltb c 65536
    then hash_unit h c
    else hash_unit (hash_unit h (55296 + (c - 65536) / 1024)) (56320 + (c - 65536) % 1024)

unfoldable pub hash_from : ℕ → String → ℕ
unfolding hash_char
hash_from h Text.[] = h
hash_from h (Text.◌∷◌ c s) = hash_from (hash_char h (code c)) s

-- `Math.abs` of the signed value.
unfoldable pub magnitude : ℕ → ℕ
magnitude h = if leb 2147483648 h then 4294967296 - h else h
